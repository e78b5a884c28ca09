-- ===== src/Vkbd/Ring.antt =====
-- The ring of events as a queue, and what becomes of it when the guest is slow.
use mathlib.Core.List.{append_assoc, append-nil}
use native.Mathlib.Nat.{mod-lt, mod-eq_of_lt, add-mod_right, mod-add-mod}
use input.Vkbd.{InEvent, Page, put_event}
use input.Base.{
  ltb, Bool-cases, length, get_elem?, set, length-set, get_elem?-set_self, get_elem?-set_ne, ℕ,
  zero, suc, ◌+◌, ◌-◌, ◌%◌, ◌^◌, ◌≤◌, ◌<◌, ◌≡◌, refl, sym, ap, ◌∙◌, subst, ◌≢◌, inl, inr, Option,
  some, List, [], ◌∷◌, ◌++◌, arith,
}

-- What the guest reads from a ring of `n` places: `k` events from the index `cons`.
abbrev pub read_at : List InEvent → ℕ → ℕ → ℕ → List (Option InEvent)
read_at ring n cons zero = []
read_at ring n cons (suc k) = get_elem? ring (cons % n) ∷ read_at ring n (cons + 1) k

apart_small : (r d n : ℕ) → r < n → 0 < d → d < n → (r + d) % n ≢ r
apart_small r d n h h' h'' = elim (Bool-cases (ltb (r + d) n)) [
  | inl l ↦ λ e. let e' = mod-eq_of_lt {n = r + d} {m = n} (ground arith) in absurd (omega arith)
  | inr g ↦ λ e.
      let s = add-mod_right (r + d - n) n in
      let e' = mod-eq_of_lt {n = r + d - n} {m = n} (ground arith) in
      let q : r + d - n + n ≡ r + d = ground arith in
      let e'' : (r + d) % n ≡ r + d - n = ap (λ x. x % n) (sym q) ∙ (s ∙ e') in
      let z : r ≡ r + d - n = sym e ∙ e'' in ground arith
]

apart : (a d n : ℕ) → 0 < d → d < n → a % n ≢ (a + d) % n
apart a d n h h' e =
    apart_small (a % n) d n (mod-lt a (omega arith)) h h' (mod-add-mod a n d ∙ sym e)

-- A place from `k` events on is not among the `k` events.
read_at-set :
    (ring : List InEvent) (e : InEvent) (n k cons d : ℕ)
    → k ≤ d
    → d < n
    → read_at (set ring ((cons + d) % n) e) n cons k ≡ read_at ring n cons k
read_at-set ring e n zero cons d h h' = refl
read_at-set ring e n (suc k) cons d h h' =
    let r = set ring ((cons + d) % n) e in
    let q : cons + 1 + (d - 1) ≡ cons + d = omega arith in
    let ne = apart cons d n (omega arith) h' in
    let head = get_elem?-set_ne ring {i = (cons + d) % n} {j = cons % n} e (λ x. ne (sym x)) in
    let tail =
      subst (λ m. read_at (set ring (m % n) e) n (cons + 1) k ≡ read_at ring n (cons + 1) k) q
        (read_at-set ring e n k (cons + 1) (d - 1) (omega arith) (omega arith)) in
    ap (λ o. o ∷ read_at r n (cons + 1) k) head ∙ ap (λ l. get_elem? ring (cons % n) ∷ l) tail

read_at-last :
    (ring : List InEvent) (n k cons : ℕ)
    → read_at ring n cons (suc k) ≡ read_at ring n cons k ++ get_elem? ring ((cons + k) % n) ∷ []
read_at-last ring n zero cons = ap (λ m. get_elem? ring (m % n) ∷ []) (omega arith)
read_at-last ring n (suc k) cons =
    let q : cons + 1 + k ≡ cons + suc k = omega arith in
    ap (λ l. get_elem? ring (cons % n) ∷ l) (read_at-last ring n k (cons + 1))
    ∙ ap
        (λ m.
          get_elem? ring (cons % n) ∷ (read_at ring n (cons + 1) k ++ get_elem? ring (m % n) ∷ []))
        q

abbrev pub put_all : List InEvent → Page → Page
put_all [] p = p
put_all (e ∷ es) p = put_all es (put_event e p)

abbrev pub all_some {ℓ} : {A : Type ℓ} → List A → List (Option A)
all_some [] = []
all_some (x ∷ xs) = some x ∷ all_some xs

put_one :
    (e : InEvent) (p : Page) (cons k : ℕ)
    → p.in_prod ≡ cons + k
    → k < length p.ring
    → read_at (put_event e p).ring (length p.ring) cons (suc k)
      ≡ read_at p.ring (length p.ring) cons k ++ some e ∷ []
put_one e p cons k h h' =
    let n = length p.ring in
    let r = set p.ring ((cons + k) % n) e in
    ap (λ m. read_at (set p.ring (m % n) e) n cons (suc k)) h
    ∙ (read_at-last r n k cons
        ∙ (ap (λ l. l ++ get_elem? r ((cons + k) % n) ∷ [])
              (read_at-set p.ring e n k cons k (omega arith) h')
            ∙ ap (λ o. read_at p.ring n cons k ++ o ∷ [])
                (get_elem?-set_self p.ring ((cons + k) % n) e (mod-lt (cons + k) (omega arith)))))

-- A guest has `k` events to read, from the index `cons`. Events are written, no more than the ring has room
-- for with them, and the index does not wrap round: the guest reads what it would have read and then the new
-- events, in their order.
pub put_all-queued :
    (es : List InEvent) (p : Page) (cons k : ℕ)
    → p.in_prod ≡ cons + k
    → k + length es ≤ length p.ring
    → p.in_prod + length es < 2 ^ 32
    → read_at (put_all es p).ring (length p.ring) cons (k + length es)
      ≡ read_at p.ring (length p.ring) cons k ++ all_some es
put_all-queued [] p cons k h h' h'' =
    let n = length p.ring in
    ap (λ m. read_at p.ring n cons m) (omega arith) ∙ sym (append-nil (read_at p.ring n cons k))
put_all-queued (e ∷ es) p cons k h h' h'' =
    let n = length p.ring in
    let p' = put_event e p in
    let same : length p'.ring ≡ n = length-set p.ring (p.in_prod % n) e in
    let rest =
      put_all-queued es p' cons (suc k) (omega arith)
        (subst (λ m. suc k + length es ≤ m) (sym same) (omega arith)) (omega arith) in
    let r = (put_all es p').ring in
    let rest' =
      subst
        (λ m. read_at r m cons (suc k + length es) ≡ read_at p'.ring m cons (suc k) ++ all_some es)
        same rest in
    let q : k + suc (length es) ≡ suc k + length es = omega arith in
    ap (λ m. read_at r n cons m) q
    ∙ (rest'
        ∙ (ap (λ l. l ++ all_some es) (put_one e p cons k h (omega arith))
            ∙ append_assoc (read_at p.ring n cons k) (some e ∷ []) (all_some es)))

-- A ring that the guest has not read at all: the next event takes the place of the oldest, since nothing
-- looks at how far the guest has come. The guest reads the new one in its place.
pub put_event-overruns :
    (e : InEvent) (p : Page) (cons : ℕ)
    → 0 < length p.ring
    → p.in_prod ≡ cons + length p.ring
    → read_at (put_event e p).ring (length p.ring) cons 1 ≡ some e ∷ []
put_event-overruns e p cons h h' =
    let n = length p.ring in
    ap (λ m. get_elem? (set p.ring (m % n) e) (cons % n) ∷ []) h'
    ∙ (ap (λ m. get_elem? (set p.ring m e) (cons % n) ∷ []) (add-mod_right cons n)
        ∙ ap (λ o. o ∷ []) (get_elem?-set_self p.ring (cons % n) e (mod-lt cons h)))
