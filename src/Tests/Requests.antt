-- ===== src/Tests/Requests.antt =====
-- Witnesses for internal/auth: a bucket of ten tokens that gains one in a second, in milliseconds.
use pet.Base.{
  ◌⊎◌, ◌↔◌, inl, inr, subst, none, some, some-injective, if◌then◌else◌, str_eq, Bool-cases, ℕ, ◌+◌,
  ◌-◌, ◌*◌, ◌≤◌, ◌≡◌, refl, String, true, List, [], ◌∷◌, arith,
}
use pet.Auth.Login.{
  Site, user, checked, saved, LoginReq, Request, Server, client_ip, is_bcrypt_hash, check_password,
  pass_limit, login, save_decks,
}
use pet.Auth.Login.Upgrade.{IsRegular, login-login}
use pet.Auth.Login.Decks.{MaySave, save_decks-MaySave}
use pet.Tests.Fixture.{table, eight}
use pet.Auth.Limit.{Units, new_limiter, new_ip_limiter, answers_ip}
use pet.Deck.{lookup}
use pet.Auth.Connections.{
  Message, Arrival, Session, Conns, taken, no_room, listen, add_conn, disconnect,
}
use pet.Auth.Connections.Sessions.{count_commands, count_commands-listen, disconnect-add_conn}
use pet.Auth.Limit.Idle.{answers_kept, answers_ip-answers_kept}

abbrev milliseconds : Units
milliseconds = record { minute = 60000; ip_idle = 600000; token = 1000 }

-- A player joins a room, which takes the command, and then sends one of an unknown type.
abbrev message : String → Message
message kind = record { kind = kind; payload = ""; room_id = "room" }

abbrev arrivals : List Arrival
arrivals =
    (record { now = 100; message = some (message "join"); joins = true; rooms = λ r. taken true })
    ∷ (record { now = 900; message = some (message "dance"); joins = true; rooms = λ r. no_room })
    ∷ []

count_commands-listen_example :
    count_commands
        (listen milliseconds "alice" arrivals
          (record { limiter = new_limiter 10 10000 0; room_id = "" })).0
      * 1000
    ≤ 10000 + (1000 - 0) * 10
count_commands-listen_example =
    count_commands-listen milliseconds "alice" 10 10000 0 1000 arrivals
      (omega arith, (omega arith, omega arith))

abbrev session : Session
session = record { limiter = new_limiter 10 10000 0; room_id = "room" }

-- "alice" connects again: her second connection replaces the first.
abbrev connected : Conns
connected = record { conns = ("alice", 1) ∷ []; quit = [] }

disconnect-add_conn_example :
    ((disconnect "alice" 1 session (add_conn "alice" 2 connected)).0 ≡ [])
    × (lookup "alice" (disconnect "alice" 1 session (add_conn "alice" 2 connected)).1.conns
        ≡ some 2)
disconnect-add_conn_example = disconnect-add_conn "alice" 1 2 session connected (omega arith)

-- The second address is swept before its second request.
abbrev calls : List (ℕ × String)
calls = (0, "a") ∷ (70000, "b") ∷ (700000, "a") ∷ (900000, "b") ∷ []

answers_ip-answers_kept_example :
    (answers_ip milliseconds calls (new_ip_limiter 1 10000)).0
    ≡ (answers_kept milliseconds calls (new_ip_limiter 1 10000)).0
answers_ip-answers_kept_example =
    answers_ip-answers_kept milliseconds 1 10000 calls (omega arith)
      (omega arith, (omega arith, (omega arith, (omega arith, tt))))

-- A site with one user and one password that its bcrypt knows; the old password is stored as text.
abbrev site : Site
site = record {
  World = String;
  byte_len = λ s. if str_eq s "hash" then 60 else 6;
  has_prefix = λ s p. true;
  trim_prefix = λ s p. s;
  same_hash = λ h p. str_eq p "secret";
  generate = λ p w. (if str_eq p "secret" then some "hash" else none, w);
  find_user = λ n w. (user 1 w, w);
  update_password = λ uid h w. (true, h);
  upsert_deck = λ uid cards w. (true, w);
  issue = λ n w. (some "token", w);
  lookup_token = λ t w. (checked "alice", w);
}

fits :
    (p h : String)
    → (if str_eq p "secret" then some "hash" else none) ≡ some h
    → (is_bcrypt_hash site h ≡ true) × (str_eq p "secret" ≡ true)
unfolding is_bcrypt_hash
fits p h e = elim (Bool-cases (str_eq p "secret")) [
  | inr other ↦ ground (arith, e, other)
  | inl secret ↦
      let same : "hash" ≡ h = some-injective "hash" h (ground (arith, e, secret)) in
      (subst (λ x. is_bcrypt_hash site x ≡ true) same refl, secret)
]

stores : (uid : ℕ) (h p w : String) → user 1 w ≡ user uid p → user 1 h ≡ user uid h
stores uid h p w e = cc

site-IsRegular : IsRegular site
site-IsRegular = record {
  password_of = λ w n. user 1 w;
  find_answers = λ n w. refl;
  find_reads = λ m n w. refl;
  generate_reads = λ p n w. refl;
  issue_reads = λ m n w. refl;
  generate_fits = λ p h w e. fits p h e;
  update_stores = λ uid h n p w e done. stores uid h p w e;
  update_fails = λ uid h n w e. cc;
}

abbrev request : Request LoginReq
request = record {
  method = "POST";
  remote_addr = "10.0.0.1:5000";
  host = some "10.0.0.1";
  authorization = "";
  body = some (record { username = "alice"; password = "secret" });
}

abbrev server : Server site
server = record { limiter = none; world = "secret" }

granted : (login site milliseconds 0 request server).0.status ≡ 200
unfolding login check_password is_bcrypt_hash
granted = refl

rewritten : (login site milliseconds 0 request server).1.world ≡ "hash"
unfolding login check_password is_bcrypt_hash
rewritten = refl

passes :
    (pass_limit site milliseconds 5
      (client_ip request)
      (login site milliseconds 0 request server).1.limiter).0
    ≡ true
unfolding login check_password is_bcrypt_hash pass_limit
passes = refl

login-login_example :
    ((login site milliseconds 5 request (login site milliseconds 0 request server).1).0.status
      ≡ 200)
    ⊎ ((login site milliseconds 5 request (login site milliseconds 0 request server).1).0.status
        ≡ 503)
login-login_example = login-login site site-IsRegular milliseconds 0 5 request server granted passes

abbrev deck_request : Request (List String)
deck_request = record {
  method = "PUT";
  remote_addr = "";
  host = none;
  authorization = "Bearer token";
  body = some eight;
}

save_decks-MaySave_example :
    ((save_decks site table deck_request "hash").0 ≡ saved "alice")
    ↔ MaySave site table deck_request "hash" "alice"
save_decks-MaySave_example = save_decks-MaySave site table deck_request "hash" "alice"
