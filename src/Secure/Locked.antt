-- ===== src/Secure/Locked.antt =====
-- The sessions of the window as steps. A locked window stays locked until a password is proven, and where
-- the secure mode is on there is a context.
use input.Secure.Keys.{
  flag_lock, flag_cannot_cancel, switcher_lock, clear_flag, force_in, switcher_auth_force,
}
use input.Secure.Proven.{
  Longer, same, more, mounted, root_set, later, Proven, Longer-trans, Proven-Longer, Longer-Proven,
  Kept, Kept-self, kept, closed, Lawful,
}
use input.Auth.{AuthContext}
use input.Base.{
  if◌then◌else◌, has_bit, pos, ℕ, ◌≡◌, refl, sym, ap, ◌∙◌, ◌≢◌, ◌⊎◌, inl, inr, Bool, true, false,
  not, ◌&&◌, ◌||◌, Option, none, some, List, [], ◌∷◌, arith,
}
use input.Auth.Status.{or_flag}
use input.Secure.{
  UserName, check_pass, mount, Act, ran, secure_mode_is, root_password_set, World, Host,
  auth_set_context, auth_window_shown, is_there, auth_begin, change_mode, input_secure,
}

-- AUTH_FLAG_CANNOT_CANCEL
abbrev pub cannot_leave : Option AuthContext → Bool
cannot_leave none = false
cannot_leave (some ctx) = has_bit flag_cannot_cancel ctx.flags

pub true_not_false : true ≢ false
true_not_false = λ h. cc

pub record Locked (w : World) : Type 0 where
  pub secure_mode : w.secure_mode ≡ true
  pub context : cannot_leave w.context ≡ true

unfoldable pub Backed : World → Type 0
Backed w = (not w.secure_mode || is_there w.context) ≡ true

pub backed_when : (mode ctx : Bool) → mode ≡ true → (not mode || ctx) ≡ true → ctx ≡ true
backed_when true ctx h b = b
backed_when false ctx h b = absurd (true_not_false (sym h))

pub backed_by : (mode ctx : Bool) → ctx ≡ true → (not mode || ctx) ≡ true
backed_by true ctx h = h
backed_by false ctx h = refl

-- A step from `w` to `v` that does what every step of a session does.
pub record Fair (w v : World) : Type 0 where
  pub log : Longer w.log v.log
  pub locked : Locked w → Locked v ⊎ ((u : UserName) × Proven u w.log v.log)
  pub backed : Backed w → Backed v

pub Kept-Fair : (w v : World) → Kept w v → Fair w v
unfolding Backed
Kept-Fair w v k = record {
  log = k.log;
  locked = λ l. inl record {
    secure_mode = k.secure_mode ∙ l.secure_mode;
    context = ap cannot_leave k.context ∙ l.context;
  };
  backed = λ b. rw (k.secure_mode, k.context) b;
}

pub Proven-Log : (u : UserName) (a b : List Act) → Proven u a b → Longer a b
Proven-Log u a _ (mounted new l) =
    more (ran mount u (pos 0)) (ran check_pass u (pos 0) ∷ new)
      (more (ran check_pass u (pos 0)) new l)
Proven-Log u a _ (root_set new e l) = more root_password_set new l
Proven-Log u a _ (later x new p) = more x new (Proven-Log u a new p)

pub Lawful-Fair : (u : UserName) (w v : World) → Lawful u w v → Fair w v
unfolding Backed
Lawful-Fair u w v (kept k) = Kept-Fair w v k
Lawful-Fair u w v (closed o s p) = record {
  log = Proven-Log u w.log v.log p;
  locked = λ l. inr (u, p);
  backed = λ b. rw (s) refl;
}

Locked-then :
    (w v v' : World)
    → Longer w.log v.log
    → Fair v v'
    → Locked v ⊎ ((u : UserName) × Proven u w.log v.log)
    → Locked v' ⊎ ((u : UserName) × Proven u w.log v'.log)
Locked-then w v v' l f (inr (u, p)) = inr (u, Proven-Longer u w.log v.log v'.log p f.log)
Locked-then w v v' l f (inl k) = elim (f.locked k) [
  | inl k' ↦ inl k'
  | inr q ↦ inr (q.0, Longer-Proven q.0 w.log v.log v'.log l q.1)
]

pub Fair-trans : (a b c : World) → Fair a b → Fair b c → Fair a c
Fair-trans a b c f g = record {
  log = Longer-trans a.log b.log c.log f.log g.log;
  locked = λ l. Locked-then a b c f.log g (f.locked l);
  backed = λ h. g.backed (f.backed h);
}

-- What the secure mode does when it is put on.
record IsOn (w v : World) : Type 0 where
  pub context : v.context ≡ w.context
  pub secure_mode : v.secure_mode ≡ true
  pub log : Longer w.log v.log

IsOn-begin :
    (b : Bool) (w : World) (p q : Bool × World)
    → IsOn w p.1
    → IsOn w q.1
    → IsOn w (if b then p else q).1
IsOn-begin true w p q i j = i
IsOn-begin false w p q i j = j

mode_test-IsOn :
    (b : Bool) (w : World) (p : Bool × World)
    → w.secure_mode ≡ b
    → IsOn w p.1
    → IsOn w (if b then (false, w) else p).1
mode_test-IsOn true w p e i = record { context = refl; secure_mode = e; log = same }
mode_test-IsOn false w p e i = i

auth_begin-IsOn : (w v : World) → IsOn w v → IsOn w (auth_begin v).1
unfolding auth_begin
auth_begin-IsOn w v i =
    IsOn-begin (is_there v.context && v.uivm && not (auth_window_shown v)) w
      (true, record v { login_state = some 1 }) (false, v)
      (record { context = i.context; secure_mode = i.secure_mode; log = i.log }) i

input_secure-IsOn : (host : Host) (w : World) → IsOn w (input_secure host true w).1
unfolding input_secure
input_secure-IsOn host w =
    let v = change_mode host true w in
    let v' = record v { fields = record v.fields { collect_password = false } } in
    mode_test-IsOn w.secure_mode w (auth_begin v') refl (
      auth_begin-IsOn w v'
        record { context = refl; secure_mode = refl; log = more (secure_mode_is true) w.log same })

flag-set : (flags : ℕ) → has_bit flag_cannot_cancel (or_flag flag_cannot_cancel flags) ≡ true
flag-set flags = ground arith

-- The secure mode is put on with a context that forbids to leave.
set-Fair :
    (host : Host) (user : List ℕ) (flags : ℕ) (w : World)
    → Fair w
        (input_secure host true
          (auth_set_context (record { user = user; flags = or_flag flag_cannot_cancel flags }) w)).1
unfolding auth_set_context Backed
set-Fair host user flags w =
    let i =
      input_secure-IsOn host
        (auth_set_context (record { user = user; flags = or_flag flag_cannot_cancel flags }) w) in
    record {
      log = i.log;
      locked = λ l. inl record {
        secure_mode = i.secure_mode;
        context = ap cannot_leave i.context ∙ flag-set flags;
      };
      backed = λ b. backed_by _ _ (ap is_there i.context);
    }

pub switcher_lock-Fair :
    (host : Host) (user : List ℕ) (flags : ℕ) (b : Bool) (w : World)
    → Fair w (switcher_lock host user flags b w)
switcher_lock-Fair host [] flags b w = Kept-Fair w w (Kept-self w)
switcher_lock-Fair host (c ∷ cs) flags b w =
    set-Fair host (c ∷ cs) (if b then flags else or_flag flag_lock flags) w

force_in-Fair :
    (host : Host) (ctx : Option AuthContext) (user : List ℕ) (flags : ℕ) (w : World)
    → w.context ≡ ctx
    → Fair w (force_in host ctx user flags w)
unfolding Backed
force_in-Fair host none [] flags w e = Kept-Fair w w (Kept-self w)
force_in-Fair host none (c ∷ cs) flags w e =
    set-Fair host (c ∷ cs) (clear_flag host flag_lock flags) w
force_in-Fair host (some ctx) user flags w e =
    let i = input_secure-IsOn host w in
    record {
      log = i.log;
      locked = λ l.
          inl
            record { secure_mode = i.secure_mode; context = ap cannot_leave i.context ∙ l.context };
      backed = λ b. backed_by _ _ (ap is_there (i.context ∙ e));
    }

pub switcher_auth_force-Fair :
    (host : Host) (user : List ℕ) (flags : ℕ) (w : World)
    → Fair w (switcher_auth_force host user flags w)
switcher_auth_force-Fair host user flags w = force_in-Fair host w.context user flags w refl
