-- ===== src/Background/Queue.antt =====
-- The background thread on a completion port whose packets come out in the order of a queue.
use aiocp.Prelude.{
  ℕ, ◌<◌, ◌≡◌, refl, false, Option, none, some, arith, Bool-cases, inl, inr, List, [], ◌∷◌,
}
use aiocp.Prelude.Int.{is_pos}
use aiocp.Os.{Os, Dequeued}
use aiocp.Task.{Header, unlock}
use aiocp.Task.Rounds.{unlock_loop-replicate}
use aiocp.Shared.{Shared, with_header, update}
use aiocp.Port.{
  CompletionStatus, CompletionOutcome, completed, aborted, errored, reserved_ports, release,
  release_header, unlock_status, drop_status,
}
use aiocp.Background.{dispatch, by_outcome}

-- What the documentation says of a completion port: `GetQueuedCompletionStatus` takes the oldest
-- packet. `packets` is the view of the queue; waking a task is no business of the port.
pub record IsQueue {W : Type 0} (os : Os W) (packets : W → List Dequeued) : Type 0 where
  pub oldest :
      (raw : ℕ) (w : W) (d : Dequeued) (rest : List Dequeued)
      → packets w ≡ d ∷ rest
      → ((os.get_queued_completion_status raw w).0 ≡ d)
        × (packets (os.get_queued_completion_status raw w).1 ≡ rest)
  pub wake_keeps : (a : ℕ) (w : W) → packets (os.wake a w) ≡ packets w

abbrev pub IsOrdinary : Dequeued → Type 0
IsOrdinary d = d.completion_key < reserved_ports

abbrev pub AllOrdinary : List Dequeued → Type 0
AllOrdinary [] = Unit {0}
AllOrdinary (d ∷ ds) = IsOrdinary d × AllOrdinary ds

-- No header of these packets is left in flight.
abbrev pub AllSettled : {W : Type 0} → List Dequeued → Shared W → Type 0
AllSettled [] s = Unit {0}
AllSettled (d ∷ ds) s =
    ((a : ℕ) → d.overlapped ≡ some a → is_pos (s.heap a).lock ≡ false) × AllSettled ds s

-- What a step of the thread does to the headers and the port: nothing that was settled is unsettled.
pub record Settles {W : Type 0} (header : Option ℕ) (s s' : Shared W) : Type 0 where
  pub keeps : (a : ℕ) → is_pos (s.heap a).lock ≡ false → is_pos (s'.heap a).lock ≡ false
  pub settled : (a : ℕ) → header ≡ some a → is_pos (s'.heap a).lock ≡ false
  pub port : s'.port ≡ s.port

module _ {W : Type 0} (os : Os W) where
  unlock-settles : (spurious : ℕ) (h : Header) → is_pos (unlock spurious h).0.lock ≡ false
  unfolding unlock
  unlock-settles spurious h = ground (arith, unlock_loop-replicate spurious h.lock)

  -- Both ways to finish a status write the unlocked header back and leave the queue alone.
  record Finished (spurious b : ℕ) (packets : W → List Dequeued) (s s' : Shared W) : Type 0 where
    heap : s'.heap ≡ update s.heap b (unlock spurious (s.heap b)).0
    port : s'.port ≡ s.port
    queue : packets s'.world ≡ packets s.world

  release_header-Finished :
      (packets : W → List Dequeued) (q : IsQueue os packets) (spurious b : ℕ) (s : Shared W)
      → Finished spurious b packets s (release_header os spurious b s)
  unfolding release_header
  release_header-Finished packets q spurious b s =
      elim (Bool-cases (unlock spurious (s.heap b)).1) [
        | inl e ↦ rw e (record { heap = refl; port = refl; queue = q.wake_keeps b s.world })
        | inr e ↦ rw e (record { heap = refl; port = refl; queue = refl })
      ]

  Finished-Settles :
      (packets : W → List Dequeued) (spurious b : ℕ) (s s' : Shared W)
      → Finished spurious b packets s s'
      → Settles (some b) s (drop_status (some b) s')
  unfolding drop_status
  Finished-Settles packets spurious b s s' f = record {
    keeps = λ a h. rw f.heap (ground (arith, unlock-settles spurious (s.heap b)));
    settled = λ a e. rw f.heap (ground (arith, unlock-settles spurious (s.heap b)));
    port = f.port;
  }

  -- A status has been dealt with: its header is settled, and the queue and the port are as before.
  pub record Handled (header : Option ℕ) (packets : W → List Dequeued) (s s' : Shared W)
      : Type 0 where
    pub settles : Settles header s s'
    pub queue : packets s'.world ≡ packets s.world

  module _ (packets : W → List Dequeued) (q : IsQueue os packets) where
    pub release-Handled :
        (spurious : ℕ) (header : Option ℕ) (s : Shared W)
        → Handled header packets s (drop_status header (release os spurious header s))
    unfolding release
    release-Handled spurious none s =
        unfold drop_status in
        record {
          settles = record { keeps = λ a h. h; settled = λ a e. cc; port = refl };
          queue = refl;
        }
    release-Handled spurious (some b) s =
        let f = release_header-Finished packets q spurious b s in
        unfold drop_status in
        record { settles = Finished-Settles packets spurious b s _ f; queue = f.queue }

    pub unlock-Handled :
        (spurious : ℕ) (header : Option ℕ) (s : Shared W)
        → Handled header packets s (drop_status header (unlock_status spurious header s))
    unfolding unlock_status
    unlock-Handled spurious none s =
        unfold drop_status in
        record {
          settles = record { keeps = λ a h. h; settled = λ a e. cc; port = refl };
          queue = refl;
        }
    unlock-Handled spurious (some b) s =
        let f : Finished spurious b packets s (with_header b (unlock spurious (s.heap b)).0 s) =
          record { heap = refl; port = refl; queue = refl } in
        unfold drop_status in
        record { settles = Finished-Settles packets spurious b s _ f; queue = refl }

    by-Handled :
        (outcome : CompletionOutcome) (spurious : ℕ) (header : Option ℕ) (s : Shared W)
        → Handled header packets s (drop_status header (by_outcome os outcome spurious header s))
    unfolding by_outcome
    by-Handled aborted spurious header s = unlock-Handled spurious header s
    by-Handled completed spurious header s = release-Handled spurious header s
    by-Handled errored spurious header s = release-Handled spurious header s

    pub dispatch-Handled :
        (spurious : ℕ) (st : CompletionStatus) (s : Shared W)
        → Handled st.header packets s (dispatch os spurious st s)
    unfolding dispatch
    dispatch-Handled spurious st s = by-Handled st.outcome spurious st.header s
