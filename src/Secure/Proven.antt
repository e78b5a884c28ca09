-- ===== src/Secure/Proven.antt =====
-- What the log tells of a password, and what it means for a step of a session to be lawful.
use input.Base.{pos, ◌≡◌, refl, ◌∙◌, Bool, true, false, none, List, ◌∷◌}
use input.Secure.{UserName, check_pass, mount, Act, ran, root_password_set, World}

-- A log that was continued.
pub data Longer (old : List Act) : List Act → Type 0 where
  same : Longer old old
  more : (a : Act) (new : List Act) → Longer old new → Longer old (a ∷ new)

-- A log that was continued, where in between the password of the user was checked and the partition was
-- mounted with it, or, where that counts, a password of root was set.
pub data ProvenBy (root : Bool) (u : UserName) (old : List Act) : List Act → Type 0 where
  mounted :
      (new : List Act)
      → Longer old new
      → ProvenBy root u old (ran mount u (pos 0) ∷ (ran check_pass u (pos 0) ∷ new))
  root_set :
      (new : List Act)
      → root ≡ true
      → Longer old new
      → ProvenBy root u old (root_password_set ∷ new)
  later : (a : Act) (new : List Act) → ProvenBy root u old new → ProvenBy root u old (a ∷ new)

abbrev pub Proven : UserName → List Act → List Act → Type 0
Proven u old new = ProvenBy true u old new

pub Longer-trans : (a b c : List Act) → Longer a b → Longer b c → Longer a c
Longer-trans a b _ l same = l
Longer-trans a b _ l (more x new m) = more x new (Longer-trans a b new l m)

pub Proven-Longer :
    {root : Bool}
    → (u : UserName) (a b c : List Act) → ProvenBy root u a b
    → Longer b c
    → ProvenBy root u a c
Proven-Longer u a b _ p same = p
Proven-Longer u a b _ p (more x new m) = later x new (Proven-Longer u a b new p m)

pub Longer-Proven :
    {root : Bool}
    → (u : UserName) (a b c : List Act) → Longer a b
    → ProvenBy root u b c
    → ProvenBy root u a c
Longer-Proven u a b _ l (mounted new m) = mounted new (Longer-trans a b new l m)
Longer-Proven u a b _ l (root_set new e m) = root_set new e (Longer-trans a b new l m)
Longer-Proven u a b _ l (later x new p) = later x new (Longer-Proven u a b new l p)

pub record Kept (w w' : World) : Type 0 where
  pub context : w'.context ≡ w.context
  pub secure_mode : w'.secure_mode ≡ w.secure_mode
  pub log : Longer w.log w'.log

pub Kept-self : (w : World) → Kept w w
Kept-self w = record { context = refl; secure_mode = refl; log = same }

pub Kept-trans : (a b c : World) → Kept a b → Kept b c → Kept a c
Kept-trans a b c k l = record {
  context = l.context ∙ k.context;
  secure_mode = l.secure_mode ∙ k.secure_mode;
  log = Longer-trans a.log b.log c.log k.log l.log;
}

-- The step leaves the window as it is, or closes it on proof.
pub data LawfulBy (root : Bool) (u : UserName) (w w' : World) : Type 0 where
  kept : Kept w w' → LawfulBy root u w w'
  closed :
      w'.context ≡ none
      → w'.secure_mode ≡ false
      → ProvenBy root u w.log w'.log
      → LawfulBy root u w w'

pub Kept-Lawful :
    {root : Bool}
    → (u : UserName) (a b c : World) → Kept a b
    → LawfulBy root u b c
    → LawfulBy root u a c
Kept-Lawful u a b c k (kept l) = kept (Kept-trans a b c k l)
Kept-Lawful u a b c k (closed o s p) = closed o s (Longer-Proven u a.log b.log c.log k.log p)

pub Lawful-Kept :
    {root : Bool}
    → (u : UserName) (a b c : World) → LawfulBy root u a b
    → Kept b c
    → LawfulBy root u a c
Lawful-Kept u a b c (kept k) l = kept (Kept-trans a b c k l)
Lawful-Kept u a b c (closed o s p) l =
    closed (l.context ∙ o) (l.secure_mode ∙ s) (Proven-Longer u a.log b.log c.log p l.log)

abbrev pub Lawful : UserName → World → World → Type 0
Lawful u w w' = LawfulBy true u w w'

ProvenBy-any : (u : UserName) (a b : List Act) → ProvenBy false u a b → Proven u a b
ProvenBy-any u a _ (mounted new l) = mounted new l
ProvenBy-any u a _ (root_set new e l) = root_set new refl l
ProvenBy-any u a _ (later x new p) = later x new (ProvenBy-any u a new p)

pub LawfulBy-any : (u : UserName) (a b : World) → LawfulBy false u a b → Lawful u a b
LawfulBy-any u a b (kept k) = kept k
LawfulBy-any u a b (closed o s p) = closed o s (ProvenBy-any u a.log b.log p)
