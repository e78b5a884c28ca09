-- ===== src/Bindings/Completeness.antt =====
-- A key sequence that is typed in full is recognised.
use native.Mathlib.Nat.{suc-add}
use mathlib.Core.Option.{some-injective}
use mathlib.Core.List.{append_assoc}
use input.Base.{
  length, get_elem?, length-append, All, pos, Event, ev_key, ℕ, zero, suc, ◌+◌, ◌<◌, ◌≡◌, refl, sym,
  ap, ◌∙◌, subst, Bool, true, false, Option, none, some, List, [], ◌∷◌, ◌++◌, arith,
}
use input.Bindings.{btn_mouse, Binding, next_match, advance, settle, scan, exec}

abbrev pub key_down : ℕ → Event
key_down c = record { type = ev_key; code = c; value = pos 1 }

abbrev pub is_some {ℓ} : {A : Type ℓ} → Option A → Bool
is_some none = false
is_some (some a) = true

get_elem?-middle :
    (xs : List ℕ) (k : ℕ) (ys : List ℕ) → get_elem? (xs ++ k ∷ ys) (length xs) ≡ some k
get_elem?-middle [] k ys = refl
get_elem?-middle (x ∷ xs) k ys = get_elem?-middle xs k ys

get_elem?-end : (xs : List ℕ) (k : ℕ) → get_elem? (xs ++ k ∷ []) (length xs + 1) ≡ none
get_elem?-end [] k = refl
get_elem?-end (x ∷ xs) k = rw (suc-add) (get_elem?-end xs k)

get_elem?-after :
    (xs : List ℕ) (c : ℕ) (cs : List ℕ) (k : ℕ)
    → (d : ℕ) × (get_elem? (xs ++ c ∷ (cs ++ k ∷ [])) (length xs + 1) ≡ some d)
get_elem?-after [] c [] k = (k, refl)
get_elem?-after [] c (d ∷ cs) k = (d, refl)
get_elem?-after (x ∷ xs) c cs k = let (d, e) = get_elem?-after xs c cs k in (d, rw suc-add e)

module _ {C : Type 0} where
  -- The binding number `i` has this sequence, `m` codes of it matched.
  abbrev Stands : ℕ → List ℕ → ℕ → List (Binding C) → Type 0
  Stands i ks m bs =
      (b : Binding C) × (get_elem? bs i ≡ some b) × (b.binding ≡ ks) × (b.matched ≡ m)

  advance_hit :
      (b : Binding C) (c d : ℕ)
      → get_elem? b.binding b.matched ≡ some c
      → get_elem? b.binding (b.matched + 1) ≡ some d
      → advance b c ≡ (false, record b { matched = b.matched + 1 })
  unfolding advance next_match
  advance_hit b c d e f = ground arith

  advance_last :
      (b : Binding C) (c : ℕ)
      → get_elem? b.binding b.matched ≡ some c
      → get_elem? b.binding (b.matched + 1) ≡ none
      → (advance b c).0 ≡ true
  unfolding advance next_match
  advance_last b c e f = ground arith

  settle_done :
      (b : Binding C) (r : Option (Binding C) × List (Binding C))
      → is_some (settle true b r).0 ≡ true
  unfolding settle
  settle_done b (some m, bs) = refl
  settle_done b (none, bs) = refl

  settle_later :
      (d : Bool) (b : Binding C) (r : Option (Binding C) × List (Binding C))
      → is_some r.0 ≡ true
      → is_some (settle d b r).0 ≡ true
  unfolding settle
  settle_later d b (some m, bs) h = refl
  settle_later d b (none, bs) h = cc

  settle_head :
      (b : Binding C) (r : Option (Binding C) × List (Binding C))
      → get_elem? (settle false b r).1 0 ≡ some b
  unfolding settle
  settle_head b (some m, bs) = refl
  settle_head b (none, bs) = refl

  settle_tail :
      (d : Bool) (b : Binding C) (r : Option (Binding C) × List (Binding C)) (i : ℕ)
      → get_elem? (settle d b r).1 (suc i) ≡ get_elem? r.1 i
  unfolding settle
  settle_tail d b (some m, bs) i = refl
  settle_tail true b (none, bs) i = refl
  settle_tail false b (none, bs) i = refl

  scan_on :
      (i : ℕ) (ks : List ℕ) (m c d : ℕ) (bs : List (Binding C))
      → get_elem? ks m ≡ some c
      → get_elem? ks (m + 1) ≡ some d
      → Stands i ks m bs
      → Stands i ks (m + 1) (scan bs c).1
  unfolding scan
  scan_on i ks m c d [] e f (b, p, q, r) = cc
  scan_on zero ks m c d (x ∷ bs) e f (b, p, q, r) =
      let same : x ≡ b = some-injective x b p in
      let xq : x.binding ≡ ks = rw same q in
      let xr : x.matched ≡ m = rw same r in
      let step = advance_hit x c d (rw (xq, xr) e) (rw (xq, xr) f) in
      rw step (
        record x { matched = x.matched + 1 },
        settle_head (record x { matched = x.matched + 1 }) (scan bs c),
        xq,
        ap (λ (n : ℕ). n + 1) xr,
      )
  scan_on (suc i) ks m c d (x ∷ bs) e f (b, p, q, r) =
      let (b', p', q', r') = scan_on i ks m c d bs e f (b, p, q, r) in
      (b', settle_tail (advance x c).0 (advance x c).1 (scan bs c) i ∙ p', q', r')

  scan_last :
      (i : ℕ) (ks : List ℕ) (m c : ℕ) (bs : List (Binding C))
      → get_elem? ks m ≡ some c
      → get_elem? ks (m + 1) ≡ none
      → Stands i ks m bs
      → is_some (scan bs c).0 ≡ true
  unfolding scan
  scan_last i ks m c [] e f (b, p, q, r) = cc
  scan_last zero ks m c (x ∷ bs) e f (b, p, q, r) =
      let same : x ≡ b = some-injective x b p in
      let xq : x.binding ≡ ks = rw same q in
      let xr : x.matched ≡ m = rw same r in
      rw (advance_last x c (rw (xq, xr) e) (rw (xq, xr) f))
        (settle_done (advance x c).1 (scan bs c))
  scan_last (suc i) ks m c (x ∷ bs) e f (b, p, q, r) =
      settle_later (advance x c).0 (advance x c).1 (scan bs c)
        (scan_last i ks m c bs e f (b, p, q, r))

  -- The keys go down one after the other; the result is that of the last.
  abbrev pub type_keys : List ℕ → ℕ → List (Binding C) → Option (Binding C) × List (Binding C)
  type_keys [] k bs = exec (key_down k) bs
  type_keys (c ∷ cs) k bs = type_keys cs k (exec (key_down c) bs).1

  exec-key_down : (c : ℕ) (bs : List (Binding C)) → c < btn_mouse → exec (key_down c) bs ≡ scan bs c
  unfolding exec
  exec-key_down c bs h = ground arith

  type_keys_from :
      (i : ℕ) (done cs : List ℕ) (k : ℕ) (bs : List (Binding C))
      → All (λ c. c < btn_mouse) cs
      → k < btn_mouse
      → Stands i (done ++ (cs ++ k ∷ [])) (length done) bs
      → is_some (type_keys cs k bs).0 ≡ true
  type_keys_from i done [] k bs small last s = rw (exec-key_down k bs last) (
      scan_last i (done ++ k ∷ []) (length done) k bs (get_elem?-middle done k [])
        (get_elem?-end done k) s)
  type_keys_from i done (c ∷ cs) k bs (small, smalls) last s =
      let (d, next) = get_elem?-after done c cs k in
      let on =
        scan_on i (done ++ c ∷ (cs ++ k ∷ [])) (length done) c d bs
          (get_elem?-middle done c (cs ++ k ∷ [])) next s in
      subst (λ (r : Option (Binding C) × List (Binding C)). is_some (type_keys cs k r.1).0 ≡ true)
        (sym (exec-key_down c bs small))
        (type_keys_from i (done ++ c ∷ []) cs k (scan bs c).1 smalls last (
          subst (λ n. Stands i ((done ++ c ∷ []) ++ (cs ++ k ∷ [])) n (scan bs c).1)
            (sym (length-append done (c ∷ [])))
            (rw (append_assoc done (c ∷ []) (cs ++ k ∷ [])) on)))

  -- Any key sequence that is typed in full is recognised: if the binding number `i` has the sequence
  -- `cs` followed by `k`, no part of which is matched yet, and its keys go down in order with no other
  -- event between them, then the last key's event is taken by some binding and not injected.
  pub exec_complete :
      (i : ℕ) (cs : List ℕ) (k : ℕ) (bs : List (Binding C)) (b : Binding C)
      → get_elem? bs i ≡ some b
      → b.binding ≡ cs ++ k ∷ []
      → b.matched ≡ 0
      → All (λ c. c < btn_mouse) cs
      → k < btn_mouse
      → is_some (type_keys cs k bs).0 ≡ true
  exec_complete i cs k bs b p q r small last = type_keys_from i [] cs k bs small last (b, p, q, r)
