-- ===== src/Background/Termination.antt =====
-- The background thread ends: its two loops on a queue that holds what a shutdown leaves to do.
use aiocp.Prelude.{
  ℕ, zero, suc, ◌+◌, ◌^◌, ◌<◌, ◌≡◌, refl, ap, ◌∙◌, false, Option, none, some, arith, lt→leb, List,
  [], ◌∷◌, ◌++◌, length,
}
use aiocp.Prelude.Int.{is_pos}
use aiocp.Io.{Outcome, ok}
use aiocp.Os.{Os, Dequeued}
use aiocp.Shared.{Shared, with_world, with_port}
use aiocp.Port.{
  shutdown, status, shutdown_port, reserved_ports, fetch_add, fetch_sub, isize_min, poll,
  poll_status, get_queued_completion_status, status_of, drop_status,
}
use aiocp.Background.{dispatch, run}
use aiocp.Background.Loops.{run-stop, run-status}
use aiocp.Background.Queue.{IsQueue, IsOrdinary, AllOrdinary, AllSettled, Settles, dispatch-Handled}

module _ {W : Type 0} (os : Os W) (packets : W → List Dequeued) (q : IsQueue os packets) where
  abbrev pub next : Shared W → Shared W
  next s = with_world (os.get_queued_completion_status s.port.raw s.world).1 s

  -- The oldest packet as a status.
  pub get_queued-oldest :
      (s : Shared W) (d : Dequeued) (rest : List Dequeued)
      → packets s.world ≡ d ∷ rest
      → get_queued_completion_status os s ≡ (status_of os d, next s)
  unfolding get_queued_completion_status
  get_queued-oldest s d rest e = rw (q.oldest s.port.raw s.world d rest e).0

  pub poll-ordinary :
      (s : Shared W) (d : Dequeued) (rest : List Dequeued)
      → packets s.world ≡ d ∷ rest
      → IsOrdinary d
      → poll os s ≡ (ok (status (status_of os d)), with_port (fetch_sub 1 s.port) (next s))
  unfolding poll poll_status
  poll-ordinary s d rest e o =
      rw (get_queued-oldest s d rest e)
        (unfold status_of in rw (lt→leb reserved_ports d.completion_key o))

  pub poll-stop :
      (s : Shared W) (d : Dequeued) (rest : List Dequeued)
      → packets s.world ≡ d ∷ rest
      → d.completion_key ≡ shutdown_port
      → poll os s ≡ (
        ok (shutdown s.port.pending),
        drop_status d.overlapped (with_port (fetch_add isize_min s.port) (next s)),
      )
  unfolding poll poll_status
  poll-stop s d rest e stop = rw (get_queued-oldest s d rest e) (unfold status_of in rw stop)

  AllSettled-Settles :
      (ds : List Dequeued) (header : Option ℕ) (s s' : Shared W)
      → Settles header s s'
      → AllSettled ds s
      → AllSettled ds s'
  AllSettled-Settles [] header s s' k a = tt
  AllSettled-Settles (d ∷ ds) header s s' k a =
      (λ b e. k.keeps b (a.0 b e), AllSettled-Settles ds header s s' k a.1)

  -- What the first loop has done when it returns `n`.
  pub record Ran (n : ℕ) (items rest : List Dequeued) (s : Shared W)
      (r : Option (Outcome ℕ) × Shared W) : Type 0 where
    pub result : r.0 ≡ some (ok n)
    pub queue : packets r.1.world ≡ rest
    pub keeps : (a : ℕ) → is_pos (s.heap a).lock ≡ false → is_pos (r.1.heap a).lock ≡ false
    pub settled : AllSettled items r.1

  pub AllSettled-keeps :
      (ds : List Dequeued) (s s' : Shared W)
      → ((a : ℕ) → is_pos (s.heap a).lock ≡ false → is_pos (s'.heap a).lock ≡ false)
      → AllSettled ds s
      → AllSettled ds s'
  AllSettled-keeps [] s s' k a = tt
  AllSettled-keeps (d ∷ ds) s s' k a = (λ b e. k b (a.0 b e), AllSettled-keeps ds s s' k a.1)

  pub drop_status-keeps :
      (header : Option ℕ) (s : Shared W) (a : ℕ)
      → is_pos (s.heap a).lock ≡ false
      → is_pos ((drop_status header s).heap a).lock ≡ false
  unfolding drop_status
  drop_status-keeps none s a h = h
  drop_status-keeps (some b) s a h = ground arith

  pub drop_status-world :
      (header : Option ℕ) (s : Shared W) → (drop_status header s).world ≡ s.world
  unfolding drop_status
  drop_status-world none s = refl
  drop_status-world (some b) s = refl

  pub status-header : (d : Dequeued) → (status_of os d).header ≡ d.overlapped
  unfolding status_of
  status-header d = refl

  pub run-Ran :
      (spurious fuel n : ℕ) (items : List Dequeued) (stop : Dequeued) (rest : List Dequeued)
      (s : Shared W)
      → packets s.world ≡ items ++ stop ∷ rest
      → AllOrdinary items
      → stop.completion_key ≡ shutdown_port
      → length items < fuel
      → s.port.pending ≡ length items + n
      → length items + n < 2 ^ 63
      → Ran n items rest s (run os spurious fuel s)
  run-Ran spurious zero n items stop rest s e o k f p small = absurd (omega arith)
  run-Ran spurious (suc fuel) n [] stop rest s e o k f p small =
      rw (run-stop os spurious fuel s.port.pending s _ (poll-stop s stop rest e k)) (record {
        result = ground arith;
        queue =
            rw (drop_status-world stop.overlapped _) (q.oldest s.port.raw s.world stop rest e).1;
        keeps = λ a h. drop_status-keeps stop.overlapped _ a h;
        settled = tt;
      })
  run-Ran spurious (suc fuel) n (d ∷ ds) stop rest s e o k f p small =
      let s1 = with_port (fetch_sub 1 s.port) (next s) in
      let h = dispatch-Handled os packets q spurious (status_of os d) s1 in
      let later =
        run-Ran spurious fuel n ds stop rest (dispatch os spurious (status_of os d) s1)
          (h.queue ∙ (q.oldest s.port.raw s.world d (ds ++ stop ∷ rest) e).1) o.1 k (omega arith)
          (ap (λ x. x.pending) h.settles.port ∙ omega arith) (omega arith) in
      rw (run-status os spurious fuel _ s s1 (poll-ordinary s d (ds ++ stop ∷ rest) e o.0))
        (record {
          result = later.result;
          queue = later.queue;
          keeps = λ a c. later.keeps a (h.settles.keeps a c);
          settled =
              (λ a c. later.keeps a (h.settles.settled a (status-header d ∙ c)), later.settled);
        })
