-- ===== src/Event/Tests.antt =====
-- `handle_agent` on concrete bytes, and its theorems at them.
use cheops_ng.Prelude.{
  ℕ, ◌≡◌, ◌⊎◌, refl, inl, inr, Bool, true, false, List, [], ◌∷◌, ◌++◌, Option, none, some, arith,
  ◌==◌, ◌||◌, if◌then◌else◌, length,
}
use cheops_ng.Prelude.Int.{pos, negsuc}
use cheops_ng.Event.Defs.{
  Memory, Agent, Server, handled, write, length_of, long_at, again, first_read, dispatch,
  dispatch_as, header_at, short_at, settle, shift, got, handle_agent,
}
use cheops_ng.Event.Safety.{IsGuarded, handle_agent-IsGuarded}
use cheops_ng.Event.Registry.{
  Registration, Registry, register_all, register_handler, HasLogin, unregistered,
  registered-HasLogin,
}
use cheops_ng.Event.Agents.{Peers, cleanup}
use cheops_ng.Event.Auth.{
  Accounts, IsPassword, IsUncrypted, handle_auth_request, check_password, same_text,
  login_iff_IsPassword,
}
use cheops_ng.Event.Cleanup.{IsCleaned, cleanup-IsCleaned}
use cheops_ng.Event.Stall.{session, split_message_lost}

-- A message of twelve bytes, of a type.
abbrev message : ℕ → List ℕ
message t = 0 ∷ 0 ∷ 0 ∷ 12 ∷ 0 ∷ 12 ∷ 0 ∷ t ∷ 0 ∷ 0 ∷ 0 ∷ 0 ∷ []

-- Handlers for a login and for the type 2; the login handler lets nobody in.
abbrev handlers : ℕ → Option (Memory → Bool → Bool)
handlers t = if t == 8 then some (λ b l. false) else (if t == 2 then some (λ b l. l) else none)

abbrev server : Bool → Server
server authenticating = record { handlers = handlers; authenticating = authenticating }

abbrev connected : Agent
connected = record { buffer = λ i. 0; filled = 0; expected_length = negsuc 0; logged_in = false }

-- A message in one read is handled.
whole_message :
    session (server false) 3 (got (message 2) ∷ []) connected
    ≡ handled (record { len = 12; hlen = 12; type = 2; flags = 0 }) ∷ []
unfolding session handle_agent write first_read again dispatch dispatch_as header_at short_at
    long_at settle shift length_of
whole_message = refl

-- Two messages in one read are both handled.
two_messages : length (session (server false) 3 (got (message 2 ++ message 2) ∷ []) connected) ≡ 2
unfolding session handle_agent write first_read again dispatch dispatch_as header_at short_at
    long_at settle shift length_of
two_messages = refl

-- The same message in two reads is not.
split_message :
    session
      (server false)
      3
      (got (0 ∷ 0 ∷ 0 ∷ 12 ∷ 0 ∷ []) ∷ got (12 ∷ 0 ∷ 2 ∷ 0 ∷ 0 ∷ 0 ∷ 0 ∷ []) ∷ [])
      connected
    ≡ []
unfolding session handle_agent write first_read again dispatch dispatch_as header_at short_at
    long_at settle shift length_of
split_message = refl

handle_agent-IsGuarded_example :
    IsGuarded (handle_agent (server true) 65537 (got (message 2)) connected)
handle_agent-IsGuarded_example =
    handle_agent-IsGuarded (server true) refl (λ f b e. ground (arith, e)) 65537 (got (message 2))
      connected (omega arith) (omega arith) refl

abbrev stuck : Agent
stuck = record { buffer = λ i. 0; filled = 5; expected_length = pos 12; logged_in = false }

split_message_lost_example :
    session
      (server false)
      3
      (got (0 ∷ 0 ∷ 0 ∷ 12 ∷ 0 ∷ []) ∷ got (12 ∷ 0 ∷ 2 ∷ 0 ∷ 0 ∷ 0 ∷ 0 ∷ []) ∷ [])
      connected
    ≡ []
unfolding length_of long_at write
split_message_lost_example =
    split_message_lost (server false) 2 12 0 (0 ∷ 0 ∷ 12 ∷ 0 ∷ [])
      (got (12 ∷ 0 ∷ 2 ∷ 0 ∷ 0 ∷ 0 ∷ 0 ∷ []) ∷ []) connected refl refl (omega arith) (omega arith)
      (omega arith) refl (omega arith, tt)

abbrev registrations : List Registration
registrations =
    record { type = pos 2; handler = 40; replace = true }
    ∷ record { type = pos 8; handler = 41; replace = false }
    ∷ record { type = pos 700; handler = 42; replace = true }
    ∷ []

registered-HasLogin_example :
    (s' : Registry) × (register_all 99 registrations unregistered ≡ some s') × HasLogin 99 s'
registered-HasLogin_example =
    registered-HasLogin 99 (record { type = pos 2; handler = 40; replace = true })
      (record { type = pos 8; handler = 41; replace = false }
        ∷ record { type = pos 700; handler = 42; replace = true }
        ∷ [])
      (
        (omega arith, inl (λ e. absurd (cc))),
        ((omega arith, inr refl), ((omega arith, inl (λ e. absurd (cc))), tt)),
      )

-- A negative type passes the test and writes in front of the array.
negative_type : register_handler 99 (negsuc 0) 40 true unregistered ≡ none
unfolding register_handler
negative_type = refl

abbrev peers : Peers
peers = record {
  agents =
      record { address = 501; socket = pos 4; watch = 11 }
      ∷ record { address = 502; socket = pos 5; watch = 0 }
      ∷ [];
  our_local_agent = 502;
  closed = [];
  unwatched = [];
  freed = [];
  socket_file = true;
}

cleanup-IsCleaned_example : (s' : Peers) × (cleanup true 3 peers ≡ some s') × IsCleaned peers s'
cleanup-IsCleaned_example = cleanup-IsCleaned true 3 peers (omega arith)

-- Two accounts, of the users 5 and 6; encryption appends the salt to the password, and refuses the
-- empty salt.
abbrev accounts : Accounts
accounts = record {
  getpwnam = λ u. if same_text u (5 ∷ []) || same_text u (6 ∷ []) then some u else none;
  getspnam = λ n. if same_text n (5 ∷ []) then some (7 ∷ 9 ∷ []) else some [];
  crypt = λ pass salt. if same_text salt [] then none else some (pass ++ (9 ∷ []));
}

right_password : handle_auth_request accounts (5 ∷ []) (7 ∷ []) false ≡ some (1, true)
unfolding handle_auth_request check_password same_text
right_password = refl

-- crypt() gives no string for the account of the user 6.
no_salt : handle_auth_request accounts (6 ∷ []) (7 ∷ []) false ≡ none
unfolding handle_auth_request check_password same_text
no_salt = refl

login_iff_IsPassword_example :
    (IsPassword accounts (5 ∷ []) (8 ∷ [])
      × (handle_auth_request accounts (5 ∷ []) (8 ∷ []) false ≡ some (1, true)))
    ⊎ ((IsUncrypted accounts (5 ∷ []) (8 ∷ [])
          × (handle_auth_request accounts (5 ∷ []) (8 ∷ []) false ≡ none))
        ⊎ (((¬ IsPassword accounts (5 ∷ []) (8 ∷ [])) × (¬ IsUncrypted accounts (5 ∷ []) (8 ∷ [])))
            × (handle_auth_request accounts (5 ∷ []) (8 ∷ []) false ≡ some (0, false))))
login_iff_IsPassword_example = login_iff_IsPassword accounts (5 ∷ []) (8 ∷ []) false
