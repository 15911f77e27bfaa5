-- ===== src/Determ/Token/Pass.antt =====
-- `putToken` of src/include/determ.h hands the token round the ring.
use dthreads.Base.{
  ℕ, zero, suc, ◌≡◌, ◌∙◌, refl, sym, not, Option, some, List, [], ◌∷◌, ◌++◌, append_assoc,
  append-nil, arith, count-append, length, length-append, ◌==◌, ==_ne, ◌>>=◌,
}
use dthreads.Links.{Ptr, null}
use dthreads.Links.Chain.{IsRing-rotate, Chain-ends, first, first_solid}
use dthreads.Determ.{Determ, index_of, token_index}
use dthreads.Determ.Token.{put_token}
use dthreads.Determ.Token.Ring.{HeadIn, IsWell}

HeadIn-rotate : (h t : Ptr) (rest : List Ptr) → HeadIn h (t ∷ rest) → HeadIn h (rest ++ (t ∷ []))
HeadIn-rotate h t [] p = p
HeadIn-rotate h t (x ∷ rest) p = ground (arith, count-append h rest (t ∷ []))

module _ {d : Determ} (t : Ptr) (rest : List Ptr) (owed : ℕ) (w : IsWell d (t ∷ rest) owed) where
  open w use {ring, token, head, inside, named, counted}

  pub holder : token_index d ≡ some (index_of t)
  unfolding token_index
  holder = rw (token, ==_ne t null (ground (arith, ring.solid)), named t (ground arith))

  -- The state with the token at the next thread of the ring.
  abbrev pub advanced : Determ
  advanced = record d { tokenpos = first (rest ++ (t ∷ [])) }

  pub advanced-IsWell : IsWell advanced (rest ++ (t ∷ [])) owed
  advanced-IsWell = record {
    ring = IsRing-rotate d.links (t ∷ []) rest ring;
    token = refl;
    head = HeadIn-rotate d.activelist t rest head;
    inside = λ a p. omega (arith, inside a p, count-append a rest (t ∷ []));
    named = λ a p. named a (omega (arith, p, count-append a rest (t ∷ [])));
    counted = omega (arith, counted, length-append rest (t ∷ []));
  }

  put_token-advanced : (i : ℕ) → put_token i d ≡ some (advanced, not (i == index_of t))
  unfolding put_token token_index
  put_token-advanced i =
      let n = (Chain-ends d.links t rest ring.linked).1 in
      rw (
        token,
        ==_ne t null (ground (arith, ring.solid)),
        n,
        ==_ne _ null (first_solid rest t ring.solid),
        named t (ground arith),
      )

  -- `putToken`, called with any index, moves the token from its holder `t` to the next thread of
  -- the ring, keeps the ring and its invariant, and changes nothing else; it reports an error
  -- exactly if the index is not that of the holder.
  pub put_token-IsWell :
      (i : ℕ)
      → (d' : Determ) × (put_token i d ≡ some (d', not (i == index_of t)))
        × IsWell d' (rest ++ (t ∷ [])) owed
        × (d' ≡ record d { tokenpos = first (rest ++ (t ∷ [])) })
  put_token-IsWell i = (advanced, put_token-advanced i, advanced-IsWell, refl)

-- The holders in turn put the token, `k` times.
unfoldable pub put_in_turn : ℕ → Determ → Option Determ
put_in_turn zero d = some d
put_in_turn (suc k) d = do owner ← token_index d; (d', wrong) ← put_token owner d; put_in_turn k d'

-- The token goes round in the order of the ring: when the holders of the first part `xs` of the ring
-- have put it in turn, it is at the thread behind them, and nothing but `_tokenpos` has changed.
pub put_in_turn-rotate :
    (d : Determ) (xs ys : List Ptr) (owed : ℕ)
    → IsWell d (xs ++ ys) owed
    → (d' : Determ) × (put_in_turn (length xs) d ≡ some d')
      × IsWell d' (ys ++ xs) owed
      × (d' ≡ record d { tokenpos = first (ys ++ xs) })
unfolding put_in_turn
put_in_turn-rotate d [] ys owed w =
    (d, refl, rw append-nil w, rw append-nil (λ i. record d { tokenpos = w.token i }))
put_in_turn-rotate d (x ∷ xs) ys owed w =
    let (d', run, w', e) = put_token-IsWell x (xs ++ ys) owed w (index_of x) in
    let (d'', run', w'', e') =
      put_in_turn-rotate d' xs (ys ++ (x ∷ [])) owed (rw append_assoc at w') in
    (
      d'',
      rw (holder x (xs ++ ys) owed w, run) run',
      rw append_assoc at w'',
      (rw append_assoc at e') ∙ (λ i. record (e i) { tokenpos = first (ys ++ (x ∷ xs)) }),
    )

-- After one round of the whole ring every thread has had the token once, and the state is as before.
pub put_in_turn-round :
    (d : Determ) (ts : List Ptr) (owed : ℕ) → IsWell d ts owed → put_in_turn (length ts) d ≡ some d
put_in_turn-round d ts owed w =
    let (d', run, w', e) = put_in_turn-rotate d ts [] owed (rw append-nil w) in
    run ∙ (λ i. some (e i)) ∙ (λ i. some (record d { tokenpos = sym w.token i }))
