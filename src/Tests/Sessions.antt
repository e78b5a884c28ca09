-- ===== src/Tests/Sessions.antt =====
-- The theorems about the sessions of the authentication window at concrete inputs.
use input.Secure.Ended.{auth_end-Lawful}
use input.Secure.Cleaned.{IsClean, local_auth-IsClean, LeavesHash, auth_end-LeavesHash}
use input.Secure.Reported.{remote_user, auth_remote_status-Lawful}
use input.Secure.Opened.{local_user}
use input.Secure.Blind.{Typed, press_all, blanks, press_all-blind}
use input.Secure.End.{auth_end}
use input.Secure.Local.{Request, local_auth}
use input.Secure.Proven.{Proven, LawfulBy, Lawful}
use input.Secure.Locked.{Locked, Backed}
use input.Secure.Sessions.{
  typed, reported, Session, begins, goes_on, Session-Locked, Session-Backed,
}
use input.Secure.Remote.{Report, request, auth_remote_status}
use input.Secure.Keys.{key_enter, Outside, key_like, input_secure_mode}
use input.Auth.{pass_field}
use input.Base.{pos, Event, ℕ, ◌≡◌, refl, ◌⊎◌, Bool, true, false, Option, none, some, List, [], ◌∷◌}
use input.Secure.{UserName, local_hash, other_path, whole, cut, World, Host, shown_by}

abbrev host : Host
host = record { digest = λ t. 1 ∷ t; user_get_name = λ t. t }

abbrev name : List ℕ
name = 98 ∷ 111 ∷ 98 ∷ []

-- A locked window, into which a password was typed; all scripts will succeed.
abbrev locked_world : World
locked_world = record {
  context = some (record { user = name; flags = 16 });
  status = none;
  flags = 0;
  login_state = some 1;
  root_password = some true;
  uivm = true;
  null_read = false;
  secure_mode = true;
  fields = record {
    cursor = 1;
    passwd = some (120 ∷ []);
    passwd_confirm = some [];
    passwd_previous = some [];
    username = some name;
    current_field = pass_field;
    collect_password = true;
  };
  files = λ f. false;
  replies = pos 0 ∷ pos 0 ∷ pos 0 ∷ [];
  disk = [];
  log = [];
}

abbrev outside : Outside
outside = record { ascii = pos 97; shift = false; focused = true; bound = false }

abbrev enter_outside : Outside
enter_outside = record { ascii = pos 0; shift = false; focused = true; bound = false }

abbrev login_report : Report
login_report = record {
  auto_started = false;
  status = pos 1;
  id = 7 ∷ [];
  username = name;
  recovery_key = some (other_path (47 ∷ []));
  ctx_flags = 8;
}

abbrev world_in : World → Option (Bool × List Event × World) → World
world_in w none = w
world_in w (some (b, es, v)) = v

abbrev unlocked : World
unlocked =
    world_in locked_world
      (input_secure_mode host enter_outside (key_like key_enter (pos 1)) locked_world)

enter_unlocks :
    input_secure_mode host enter_outside (key_like key_enter (pos 1)) locked_world
    ≡ some (true, [], unlocked)
unfolding input_secure_mode
enter_unlocks = refl

-- The password is right: the window is gone.
unlocked_context : unlocked.context ≡ none
unfolding input_secure_mode
unlocked_context = refl

abbrev whole_session : Session host locked_world (auth_remote_status host login_report unlocked)
whole_session =
    goes_on unlocked (auth_remote_status host login_report unlocked)
      (goes_on locked_world unlocked begins
        (typed enter_outside (key_like key_enter (pos 1)) true [] unlocked enter_unlocks))
      (reported login_report)

Session-Locked_example :
    Locked (auth_remote_status host login_report unlocked)
    ⊎ ((u : UserName) × Proven u [] (auth_remote_status host login_report unlocked).log)
Session-Locked_example =
    Session-Locked host locked_world (auth_remote_status host login_report unlocked) whole_session
      record { secure_mode = refl; context = refl }

Session-Backed_example : Backed (auth_remote_status host login_report unlocked)
unfolding Backed
Session-Backed_example =
    Session-Backed host locked_world (auth_remote_status host login_report unlocked) whole_session
      refl

auth_end-Lawful_example :
    Lawful
      (local_user host name)
      locked_world
      (auth_end host (some name) (120 ∷ []) (some []) (some []) locked_world)
auth_end-Lawful_example =
    auth_end-Lawful host (some name) (120 ∷ []) (some []) (some []) locked_world

auth_remote_status-Lawful_example :
    LawfulBy false
      (remote_user host (7 ∷ []))
      locked_world
      (auth_remote_status host login_report locked_world)
auth_remote_status-Lawful_example = auth_remote_status-Lawful host login_report locked_world

abbrev tried : Request
tried = request host login_report false 0

-- The hash of the password is on the ramdisk.
abbrev hashed_world : World
hashed_world = record locked_world { files = λ f. true }

local_auth-IsClean_example : IsClean tried (local_auth host tried hashed_world).1
unfolding local_auth
local_auth-IsClean_example = local_auth-IsClean host tried hashed_world 7 [] refl refl refl refl

abbrev unwritten_world : World
unwritten_world = record locked_world {
  context = some (record { user = name; flags = 24 });
  login_state = some 1;
  disk = whole ∷ cut ∷ whole ∷ [];
}

auth_end-LeavesHash_example :
    LeavesHash
      (local_hash (1 ∷ name))
      unwritten_world
      (auth_end host (some name) (120 ∷ []) (some []) none unwritten_world)
unfolding shown_by
auth_end-LeavesHash_example =
    auth_end-LeavesHash host 98 (111 ∷ 98 ∷ []) (120 ∷ []) (some []) none
      (record { user = name; flags = 24 }) 1 cut (whole ∷ []) locked_world refl refl refl refl refl
      refl refl

abbrev keys : List Typed
keys =
    record { outside = outside; code = 30; printable = refl; plain_key = refl }
    ∷ record { outside = outside; code = 48; printable = refl; plain_key = refl }
    ∷ []

press_all-blind_example :
    (v : World) × (press_all host keys locked_world ≡ some (blanks host keys, v))
press_all-blind_example = press_all-blind host keys locked_world refl
