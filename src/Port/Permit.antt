-- ===== src/Port/Permit.antt =====
-- Proofs about the counter of a completion port: permits, the sign after a shutdown, and its counts.
use aiocp.Prelude.{ℕ, zero, suc, ◌+◌, ◌^◌, ◌≤◌, ◌<◌, ◌≡◌, arith, List, [], ◌∷◌, if◌then◌else◌}
use aiocp.Io.{Outcome, ok, err, panic}
use aiocp.Shared.{Port}
use aiocp.Port.{permit, drop_permit, attempt, withdraw}

-- What tasks do to the counter, in any order: they ask for a permit in one go, or with the two atomic
-- operations of a refusal apart and other requests in between, and they give permits back.
pub data Request : Type 0 where
  acquire begin take_back give_back : Request

-- The port, the permits that are out, and the refused attempts that are not taken back yet.
pub record Counter : Type 0 where
  pub port : Port
  pub held : ℕ
  pub refused : ℕ

abbrev got : Outcome (Unit {0}) → ℕ → ℕ
got (ok _) held = held + 1
got (err _) held = held
got panic held = held

abbrev give : ℕ → Counter → Counter
give zero c = c
give (suc held) c = record c { port = drop_permit c.port; held = held }

abbrev take : ℕ → Counter → Counter
take zero c = c
take (suc refused) c = record c { port = withdraw c.port; refused = refused }

abbrev begun : Counter → Counter
begun c =
    let (granted, p) = attempt c.port in
    if granted
    then record c { port = p; held = c.held + 1 }
    else record c { port = p; refused = c.refused + 1 }

unfoldable pub serve_one : Request → Counter → Counter
serve_one acquire c = record c { port = (permit c.port).1; held = got (permit c.port).0 c.held }
serve_one begin c = begun c
serve_one take_back c = take c.refused c
serve_one give_back c = give c.held c

unfoldable pub serve : List Request → Counter → Counter
serve [] c = c
serve (r ∷ rs) c = serve rs (serve_one r c)

abbrev begins_one : Request → ℕ
begins_one begin = 1
begins_one _ = 0

-- How many attempts begin.
abbrev pub begins : List Request → ℕ
begins [] = 0
begins (r ∷ rs) = begins_one r + begins rs

-- One request more: it adds up, no permit is granted, and only a beginning can add an attempt.
record Served (rest : ℕ) (r : Request) (c c' : Counter) : Type 0 where
  adds : c'.port.pending ≡ 2 ^ 63 + rest + c'.held + c'.refused
  falls : c'.held ≤ c.held
  grows : c'.refused ≤ c.refused + begins_one r

module _ (rest : ℕ) where
  give-Served :
      (held refused : ℕ) (p : Port)
      → p.pending ≡ 2 ^ 63 + rest + held + refused
      → 2 ^ 63 + rest + held + refused < 2 ^ 64
      → let c : Counter = record { port = p; held = held; refused = refused } in
        Served rest give_back c (give held c)
  unfolding drop_permit
  give-Served zero refused p e small = record { adds = e; falls = omega arith; grows = omega arith }
  give-Served (suc held) refused p e small = record {
    adds = omega arith;
    falls = omega arith;
    grows = omega arith;
  }

  take-Served :
      (held refused : ℕ) (p : Port)
      → p.pending ≡ 2 ^ 63 + rest + held + refused
      → 2 ^ 63 + rest + held + refused < 2 ^ 64
      → let c : Counter = record { port = p; held = held; refused = refused } in
        Served rest take_back c (take refused c)
  take-Served held zero p e small = record { adds = e; falls = omega arith; grows = omega arith }
  take-Served held (suc refused) p e small = record {
    adds = omega arith;
    falls = omega arith;
    grows = omega arith;
  }

  one-Served :
      (r : Request) (c : Counter)
      → c.port.pending ≡ 2 ^ 63 + rest + c.held + c.refused
      → 2 ^ 63 + rest + c.held + c.refused + 1 < 2 ^ 64
      → Served rest r c (serve_one r c)
  unfolding serve_one permit
  one-Served acquire c e small = record {
    adds = ground arith;
    falls = ground arith;
    grows = ground arith;
  }
  one-Served begin c e small = record {
    adds = ground arith;
    falls = ground arith;
    grows = ground arith;
  }
  one-Served take_back c e small = take-Served c.held c.refused c.port e (omega arith)
  one-Served give_back c e small = give-Served c.held c.refused c.port e (omega arith)

-- Once the port shuts down the counter is negative. Whatever tasks do to it then, also between the
-- addition and the subtraction of a refused permit, no permit is granted, so that the permits out
-- only go back, and the counter is the sign bit plus its rest plus the permits out and the refused
-- attempts not taken back yet. The sum, with the attempts to begin and one more, is below 2^64.
pub serve-shutting_down :
    (rs : List Request) (c : Counter) (rest : ℕ)
    → c.port.pending ≡ 2 ^ 63 + rest + c.held + c.refused
    → 2 ^ 63 + rest + c.held + c.refused + begins rs + 1 < 2 ^ 64
    → ((serve rs c).port.pending ≡ 2 ^ 63 + rest + (serve rs c).held + (serve rs c).refused)
      × ((serve rs c).held ≤ c.held)
unfolding serve
serve-shutting_down [] c rest e small = (e, omega arith)
serve-shutting_down (r ∷ rs) c rest e small =
    let one = one-Served rest r c e (omega arith) in
    let (counts, below) =
      serve-shutting_down rs (serve_one r c) rest one.adds (omega (arith, one.falls, one.grows)) in
    (counts, omega (arith, one.falls, below))
