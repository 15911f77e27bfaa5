-- ===== src/Determ/Tests/Ring.antt =====
-- The theorems on the token ring of src/include/determ.h at the states of the tests.
use dthreads.Base.{◌+◌, ◌≡◌, refl, true, some, List, [], ◌∷◌, ◌++◌, arith}
use dthreads.Links.{Ptr}
use dthreads.Links.Chain.{first}
use dthreads.Determ.{Determ, ready, exited}
use dthreads.Determ.Token.{put_token, deregister_thread, register_thread}
use dthreads.Determ.Token.Ring.{IsWell}
use dthreads.Determ.Token.Pass.{put_token-IsWell, put_in_turn, put_in_turn-rotate}
use dthreads.Determ.Token.Exit.{deregister_thread-IsWell}
use dthreads.Determ.Token.Register.{register_thread-IsWell}
use dthreads.Determ.Tests.States.{state, state-IsWell}

put_token-IsWell_example :
    (d' : Determ) × (put_token 1 state ≡ some (d', true))
    × IsWell d' (2 ∷ 3 ∷ 1 ∷ []) 0
    × (d' ≡ record state { tokenpos = 2 })
put_token-IsWell_example = put_token-IsWell 1 (2 ∷ 3 ∷ []) 0 state-IsWell 1

put_in_turn-rotate_example :
    (d' : Determ) × (put_in_turn 2 state ≡ some d')
    × IsWell d' (3 ∷ 1 ∷ 2 ∷ []) 0
    × (d' ≡ record state { tokenpos = 3 })
put_in_turn-rotate_example = put_in_turn-rotate state (1 ∷ 2 ∷ []) (3 ∷ []) 0 state-IsWell

deregister_thread-IsWell_example :
    (d' : Determ) × (deregister_thread 0 state ≡ some d')
    × IsWell d' (2 ∷ 3 ∷ []) 0
    × ((d'.entries 0).status ≡ exited)
    × (d'.alivethreads + 1 ≡ 5)
deregister_thread-IsWell_example =
    deregister_thread-IsWell 0 2 (3 ∷ []) 0 state-IsWell (omega arith) (omega arith) (omega arith)
      refl

register_thread-IsWell_example :
    (us : List Ptr) × (vs : List Ptr) × (d' : Determ) × (1 ∷ 2 ∷ 3 ∷ [] ≡ us ++ vs)
    × (first (vs ++ us) ≡ 1)
    × (register_thread 9 109 0 state ≡ some d')
    × IsWell d' (us ++ (10 ∷ vs)) 1
    × (d'.tokenpos ≡ 1)
    × ((d'.entries 9).status ≡ ready)
register_thread-IsWell_example =
    register_thread-IsWell 9 109 0 1 (2 ∷ 3 ∷ []) 0 state-IsWell refl (omega arith)
