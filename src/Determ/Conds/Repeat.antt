-- ===== src/Determ/Conds/Repeat.antt =====
-- Several `cond_signal`s of src/include/determ.h in a row, by one holder of the token.
use dthreads.Base.{ℕ, zero, suc, ◌≡◌, refl, Option, some, List, [], ◌∷◌, arith, length, ◌>>=◌}
use dthreads.Links.{Ptr}
use dthreads.Determ.{Determ}
use dthreads.Determ.Conds.{signal_on}
use dthreads.Determ.Conds.Queue.{IsQueue, Apart}
use dthreads.Determ.Conds.Signal.{signal_on-IsQueue}
use dthreads.Determ.Token.Ring.{IsWell}

unfoldable signals : ℕ → (c : Ptr) → Determ → Option Determ
signals zero c d = some d
signals (suc n) c d = do d ← signal_on c d; signals n c d

-- The list `ws` in reverse, before `rest`.
abbrev reversed_onto : (ws rest : List Ptr) → List Ptr
reversed_onto [] rest = rest
reversed_onto (w ∷ ws) rest = reversed_onto ws (w ∷ rest)

-- As many `cond_signal`s as threads wait, by one holder of the token, wake them all; the one that was
-- woken last, which is the one that has waited least long, comes right behind the holder, and so on
-- back to the one that was woken first.
signals-reversed :
    (c t : Ptr) (owed : ℕ) (ws rest : List Ptr) {d : Determ}
    → IsWell d (t ∷ rest) owed
    → IsQueue d c ws
    → Apart (t ∷ rest) ws
    → (d' : Determ) × (signals (length ws) c d ≡ some d')
      × IsWell d' (t ∷ reversed_onto ws rest) owed
      × IsQueue d' c []
unfolding signals
signals-reversed c t owed [] rest {d} w q apart = (d, refl, w, q)
signals-reversed c t owed (s ∷ ws) rest {d} w q apart =
    let (d1, run, w1, q1, woken, same) = signal_on-IsQueue c t rest s ws owed w q apart in
    let (d', run', w', q') =
      signals-reversed c t owed ws (s ∷ rest) w1 q1 (λ a. omega (arith, apart a)) in
    (d', rw run run', w', q')
