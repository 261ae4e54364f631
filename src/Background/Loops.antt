-- ===== src/Background/Loops.antt =====
-- The two loops of the thread, one round at a time.
use aiocp.Prelude.{ℕ, suc, ◌≡◌, refl, ap, ◌∙◌, sym, ◌⊎◌, inl, inr, Option, some, none}
use aiocp.Io.{Outcome, IoError, ok, err, panic}
use aiocp.Os.{Os}
use aiocp.Shared.{Shared}
use aiocp.Port.{
  CompletionStatus, CompletionPoll, status, shutdown, poll, poll_during_shutdown, release,
  drop_status,
}
use aiocp.Background.{dispatch, run, drain, thread_body}

abbrev number : Option (Outcome ℕ) → ℕ → ℕ
number (some (ok n)) other = n
number _ other = other

module _ {W : Type 0} (os : Os W) (spurious fuel : ℕ) where
  pub run-stop :
      (n : ℕ) (s s' : Shared W)
      → poll os s ≡ (ok (shutdown n), s')
      → run os spurious (suc fuel) s ≡ (some (ok n), s')
  unfolding run
  run-stop n s s' e = rw (e, run) (ap (λ x. (some (ok n), x.1)) e)

  pub run-status :
      (st : CompletionStatus) (s s' : Shared W)
      → poll os s ≡ (ok (status st), s')
      → run os spurious (suc fuel) s ≡ run os spurious fuel (dispatch os spurious st s')
  unfolding run
  run-status st s s' e =
      rw (e, run) (ap (λ x. run os spurious fuel (dispatch os spurious st x.1)) e)

  run-err :
      (x : IoError) (s s' : Shared W)
      → poll os s ≡ (err x, s')
      → (run os spurious (suc fuel) s).0 ≡ some (err x)
  unfolding run
  run-err x s s' e = rw (e, run) refl

  run-panic :
      (s s' : Shared W) → poll os s ≡ (panic, s') → (run os spurious (suc fuel) s).0 ≡ some panic
  unfolding run
  run-panic s s' e = rw (e, run) refl

  -- A run that has ended at a shutdown has found it at once, or has dealt with a status first.
  abbrev pub RunRound : ℕ → Shared W → Type 0
  RunRound n s =
      ((poll os s).0 ≡ ok (shutdown n)) × ((run os spurious (suc fuel) s).1 ≡ (poll os s).1)
      ⊎ ((st : CompletionStatus) × ((poll os s).0 ≡ ok (status st))
          × (run os spurious (suc fuel) s
              ≡ run os spurious fuel (dispatch os spurious st (poll os s).1)))

  run-split :
      (n : ℕ) (x : Outcome CompletionPoll × Shared W) (s : Shared W)
      → poll os s ≡ x
      → (run os spurious (suc fuel) s).0 ≡ some (ok n)
      → RunRound n s
  run-split n (ok (shutdown j), s') s e h =
      let path = run-stop j s s' e in
      let same : j ≡ n = ap (λ x. number x n) (sym (ap (λ x. x.0) path) ∙ h) in
      inl (
        ap (λ x. x.0) e ∙ ap (λ x. ok (shutdown x)) same,
        ap (λ x. x.1) path ∙ sym (ap (λ x. x.1) e),
      )
  run-split n (ok (status st), s') s e h = inr (
    st,
    ap (λ x. x.0) e,
    run-status st s s' e
        ∙ ap (λ x. run os spurious fuel (dispatch os spurious st x)) (sym (ap (λ x. x.1) e)),
  )
  run-split n (err x, s') s e h = cc (run-err x s s' e)
  run-split n (panic, s') s e h = cc (run-panic s s' e)

  pub run-RunRound :
      (n : ℕ) (s : Shared W) → (run os spurious (suc fuel) s).0 ≡ some (ok n) → RunRound n s
  run-RunRound n s h = run-split n (poll os s) s refl h

  pub drain-status :
      (n : ℕ) (st : CompletionStatus) (s s' : Shared W)
      → poll_during_shutdown os fuel s ≡ (some (ok st), s')
      → drain os spurious fuel (suc n) s
        ≡ drain os spurious fuel n (drop_status st.header (release os spurious st.header s'))
  unfolding drain
  drain-status n st s s' e =
      rw (e, drain)
        (ap
          (λ x.
            drain os spurious fuel n (drop_status st.header (release os spurious st.header x.1)))
          e)

  drain-err :
      (n : ℕ) (x : IoError) (s s' : Shared W)
      → poll_during_shutdown os fuel s ≡ (some (err x), s')
      → (drain os spurious fuel (suc n) s).0 ≡ some (err x)
  unfolding drain
  drain-err n x s s' e = rw (e, drain) refl

  drain-panic :
      (n : ℕ) (s s' : Shared W)
      → poll_during_shutdown os fuel s ≡ (some panic, s')
      → (drain os spurious fuel (suc n) s).0 ≡ some panic
  unfolding drain
  drain-panic n s s' e = rw (e, drain) refl

  drain-none :
      (n : ℕ) (s s' : Shared W)
      → poll_during_shutdown os fuel s ≡ (none, s')
      → (drain os spurious fuel (suc n) s).0 ≡ none
  unfolding drain
  drain-none n s s' e = rw (e, drain) refl

  -- A round of the second loop that goes well.
  abbrev pub DrainRound : ℕ → Shared W → Type 0
  DrainRound n s =
      (st : CompletionStatus) × ((poll_during_shutdown os fuel s).0 ≡ some (ok st))
      × (drain os spurious fuel (suc n) s
          ≡ drain os spurious fuel n (
              drop_status st.header
                (release os spurious st.header (poll_during_shutdown os fuel s).1)))

  drain-split :
      (n : ℕ) (x : Option (Outcome CompletionStatus) × Shared W) (s : Shared W)
      → poll_during_shutdown os fuel s ≡ x
      → (drain os spurious fuel (suc n) s).0 ≡ some (ok tt)
      → DrainRound n s
  drain-split n (some (ok st), s') s e h = (
    st,
    ap (λ x. x.0) e,
    drain-status n st s s' e
        ∙ ap
            (λ x.
              drain os spurious fuel n (drop_status st.header (release os spurious st.header x)))
            (sym (ap (λ x. x.1) e)),
  )
  drain-split n (some (err x), s') s e h = cc (drain-err n x s s' e)
  drain-split n (some panic, s') s e h = cc (drain-panic n s s' e)
  drain-split n (none, s') s e h = cc (drain-none n s s' e)

  pub drain-DrainRound :
      (n : ℕ) (s : Shared W) → (drain os spurious fuel (suc n) s).0 ≡ some (ok tt) → DrainRound n s
  drain-DrainRound n s h = drain-split n (poll_during_shutdown os fuel s) s refl h

  pub thread_body-run :
      (n : ℕ) (s s' : Shared W)
      → run os spurious fuel s ≡ (some (ok n), s')
      → thread_body os spurious fuel s ≡ drain os spurious fuel n s'
  unfolding thread_body
  thread_body-run n s s' e = rw (e, thread_body) (ap (λ x. drain os spurious fuel n x.1) e)

  thread_body-err :
      (x : IoError) (s s' : Shared W)
      → run os spurious fuel s ≡ (some (err x), s')
      → (thread_body os spurious fuel s).0 ≡ some (err x)
  unfolding thread_body
  thread_body-err x s s' e = rw (e, thread_body) refl

  thread_body-panic :
      (s s' : Shared W)
      → run os spurious fuel s ≡ (some panic, s')
      → (thread_body os spurious fuel s).0 ≡ some panic
  unfolding thread_body
  thread_body-panic s s' e = rw (e, thread_body) refl

  thread_body-none :
      (s s' : Shared W)
      → run os spurious fuel s ≡ (none, s')
      → (thread_body os spurious fuel s).0 ≡ none
  unfolding thread_body
  thread_body-none s s' e = rw (e, thread_body) refl

  -- A body that returns without an error has run both loops.
  abbrev pub Both : Shared W → Type 0
  Both s =
      (n : ℕ) × ((run os spurious fuel s).0 ≡ some (ok n))
      × (thread_body os spurious fuel s ≡ drain os spurious fuel n (run os spurious fuel s).1)

  split-Both :
      (x : Option (Outcome ℕ) × Shared W) (s : Shared W)
      → run os spurious fuel s ≡ x
      → (thread_body os spurious fuel s).0 ≡ some (ok tt)
      → Both s
  split-Both (some (ok n), s') s e h = (
    n,
    ap (λ x. x.0) e,
    thread_body-run n s s' e ∙ ap (λ x. drain os spurious fuel n x) (sym (ap (λ x. x.1) e)),
  )
  split-Both (some (err x), s') s e h = cc (thread_body-err x s s' e)
  split-Both (some panic, s') s e h = cc (thread_body-panic s s' e)
  split-Both (none, s') s e h = cc (thread_body-none s s' e)

  pub thread_body-Both : (s : Shared W) → (thread_body os spurious fuel s).0 ≡ some (ok tt) → Both s
  thread_body-Both s h = split-Both (run os spurious fuel s) s refl h
