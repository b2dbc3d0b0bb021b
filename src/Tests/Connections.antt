-- ===== src/Tests/Connections.antt =====
-- Witnesses for the tokens and the connections of internal/auth.
use pet.Base.{
  ℕ, zero, suc, ◌≤◌, ◌++◌, subst, append-nil, length, length-append, ◌+◌, ◌≡◌, ◌≢◌, ◌↔◌, refl, ap,
  String, true, List, [], ◌∷◌, Option, none, some, if◌then◌else◌, ltb, str_eq, arith, inl, inr, sym,
  ◌∙◌, ◌⊎◌,
}
use text.Mathlib.TextEquality.{eq_iff}
use pet.Deck.{lookup, insert}
use pet.Deck.Maps.{lookup-insert}
use pet.Auth.Login.{Checked, checked}
use pet.Auth.Tokens.{KeyValues, Got, got_nil, got, token_key, ttl_of}
use pet.Auth.Tokens.Calls.{Timed, issue, look_up, IsExpiring, AreApart, mem_answers, redis_answers}
use pet.Auth.Tokens.Agreement.{mem_answers-redis_answers}
use pet.Auth.Connections.{Urls}
use pet.Auth.Connections.Outgoing.{
  send_cap, Outgoing, fresh, try_kick, Moves, Travels, IsOrderly, Travels-IsOrderly,
}
use pet.Auth.Connections.Opening.{opened, open_ws, IsAllowedOrigin, open_ws-IsAllowedOrigin}

-- Keys with their values and the times when they expire.
abbrev Keys : Type 0
Keys = List (String × (String × ℕ))

abbrev alive_at : ℕ → Option (String × ℕ) → Option String
alive_at m none = none
alive_at m (some (v, e)) = if ltb m e then some v else none

abbrev as_got : Option String → Got
as_got o = elim o [ none ↦ got_nil | some v ↦ got v ]

-- A hash with many collisions, but none of the two tokens that are drawn.
abbrev two_digests : String → String
two_digests token = if str_eq token "token" then "9f" else if str_eq token "other" then "d3" else ""

abbrev expiring : KeyValues
expiring = record {
  World = ℕ × Keys;
  sha256_hex = two_digests;
  concat = λ start token. String.◌∷◌ "t" token;
  set = λ k v ttl (now, keys). (true, (now, insert k (v, now + ttl) keys));
  get = λ k (now, keys). (as_got (alive_at now (lookup k keys)), (now, keys));
}

set_alive :
    (n m : ℕ) (k v j : String) (ttl : ℕ) (keys : Keys)
    → alive_at m (lookup j (insert k (v, n + ttl) keys)) ≡ (
        if str_eq k j
        then (if ltb m (n + ttl) then some v else none)
        else alive_at m (lookup j keys))
set_alive n m k v j ttl keys = ground (arith, lookup-insert j k (v, n + ttl) keys)

abbrev expiring_laws : IsExpiring expiring
expiring_laws = record {
  at = λ n (now, keys). (n, keys);
  alive = λ (now, keys) k m. alive_at m (lookup k keys);
  waits = λ n w k m. refl;
  gets = λ n w k. refl;
  gets_only = λ n w k j m. refl;
  sets = λ n w k v ttl. refl;
  set_alive = λ n (now, keys) k v ttl j m h. set_alive n m k v j ttl keys;
}

abbrev IsDrawn : String → Type 0
IsDrawn token = (token ≡ "token") ⊎ (token ≡ "other")

keys_differ : token_key expiring "token" ≢ token_key expiring "other"
unfolding token_key
keys_differ e =
    ground (arith, (eq_iff (token_key expiring "token") (token_key expiring "other")).1 e)

IsDrawn-AreApart : AreApart expiring IsDrawn
IsDrawn-AreApart a b (inl p) (inl q) e = p ∙ sym q
IsDrawn-AreApart a b (inl p) (inr q) e =
    absurd (keys_differ (sym (ap (token_key expiring) p) ∙ e ∙ ap (token_key expiring) q))
IsDrawn-AreApart a b (inr p) (inl q) e =
    absurd (keys_differ (sym (ap (token_key expiring) q) ∙ sym e ∙ ap (token_key expiring) p))
IsDrawn-AreApart a b (inr p) (inr q) e = p ∙ sym q

abbrev drawn : String
drawn = "token"

token_named : drawn ≢ ""
token_named e = ground (arith, (eq_iff drawn "").1 e)

abbrev other : String
other = "other"

other_named : other ≢ ""
other_named e = ground (arith, (eq_iff other "").1 e)

abbrev calls : List Timed
calls =
    (1, issue "token" "alice")
    ∷ (2, issue "other" "bob")
    ∷ (5, look_up "token")
    ∷ (6, look_up "other")
    ∷ (30, look_up "token")
    ∷ []

mem_answers-redis_answers_example :
    mem_answers calls (record { ttl = 24; m = [] })
    ≡ redis_answers expiring expiring_laws 1 0 calls (0, [])
unfolding ttl_of lookup
mem_answers-redis_answers_example =
    mem_answers-redis_answers expiring expiring_laws 1 0 IsDrawn IsDrawn-AreApart calls 0
      (record { ttl = 24; m = [] }) (0, []) refl
      (
        omega arith,
        inl refl,
        token_named,
        (
          omega arith,
          inr refl,
          other_named,
          (omega arith, inl refl, (omega arith, inr refl, (omega arith, inl refl, tt))),
        ),
      )
      (λ token m its named later. refl)

-- As many messages as are sent, of which none is written.
unfoldable waiting : ℕ → List String
waiting zero = []
waiting (suc n) = waiting n ++ "tick" ∷ []

length-waiting : (n : ℕ) → length (waiting n) ≡ n
unfolding waiting
length-waiting zero = refl
length-waiting (suc n) = omega (arith, length-append (waiting n) ("tick" ∷ []), length-waiting n)

fills : (n : ℕ) → n ≤ send_cap → Travels fresh (waiting n) (record fresh { send = waiting n })
unfolding waiting
fills zero h = Travels.stay fresh
fills (suc n) h =
    Travels.one_more fresh (record fresh { send = waiting n })
      (record fresh { send = waiting n ++ "tick" ∷ [] }) (waiting n) ("tick" ∷ [])
      (fills n (omega (arith, h)))
      (Moves.accept "tick" (record fresh { send = waiting n }) (omega (arith, h, length-waiting n)))

-- A step that accepts no message.
silently :
    (sent : List String) (p q : Outgoing)
    → Travels fresh sent p
    → Moves p [] q
    → Travels fresh sent q
silently sent p q t step =
    subst (λ l. Travels fresh l q) (append-nil sent) (Travels.one_more fresh p q sent [] t step)

-- Two messages find the channel full, and the connection is kicked for the first of them.
abbrev full : Outgoing
full = record fresh { send = waiting 256 }

abbrev two_drop : Outgoing
two_drop = record full { dropping = 2 }

abbrev two_swap : Outgoing
two_swap = record full { send_dropped = 2; swapping = 2 }

abbrev one_counts : Outgoing
one_counts = record full { send_dropped = 2; kicked = true; counting = 1 }

abbrev one_closes : Outgoing
one_closes = record full { send_dropped = 2; kicked = true; slow_kicked = 1; closing = 1 }

abbrev kicked_out : Outgoing
kicked_out = record full { send_dropped = 2; kicked = true; slow_kicked = 1; quit = true }

channel_full : send_cap ≤ length (waiting 256)
channel_full = omega (arith, length-waiting 256)

both_dropped : Travels fresh (waiting 256) two_swap
both_dropped =
    silently (waiting 256) (record full { dropping = 1; send_dropped = 1; swapping = 1 }) two_swap
      (silently (waiting 256) two_drop
        (record full { dropping = 1; send_dropped = 1; swapping = 1 })
        (silently (waiting 256) (record full { dropping = 1 }) two_drop
          (silently (waiting 256) full (record full { dropping = 1 }) (fills 256 (omega arith))
            (Moves.discard "late" full channel_full refl))
          (Moves.discard "later" (record full { dropping = 1 }) channel_full refl))
        (Moves.count_drop 1 two_drop refl))
      (Moves.count_drop 0 (record full { dropping = 1; send_dropped = 1; swapping = 1 }) refl)

travels : Travels fresh (waiting 256) kicked_out
unfolding try_kick
travels =
    silently (waiting 256) one_closes kicked_out
      (silently (waiting 256) one_counts one_closes
        (silently (waiting 256) (record one_counts { swapping = 1 }) one_counts
          (silently (waiting 256) two_swap (record one_counts { swapping = 1 }) both_dropped
            (Moves.try_swap 1 two_swap refl))
          (Moves.try_swap 0 (record one_counts { swapping = 1 }) refl))
        (Moves.count_kick 0 one_counts refl))
      (Moves.close_kicked 0 one_closes refl)

Travels-IsOrderly_example : IsOrderly (waiting 256) kicked_out
Travels-IsOrderly_example = Travels-IsOrderly (waiting 256) kicked_out travels

abbrev urls : Urls
urls = record { host_of = λ s. some s; trim_right = λ s. s; equal_fold = str_eq }

abbrev knows : ℕ → Checked × ℕ
knows asked = (checked "alice", asked + 1)

open_ws-IsAllowedOrigin_example :
    (((open_ws urls ("https://a.com" ∷ []) knows true "https://a.com" "pet" 0).0 ≡ opened "alice")
      ↔ (IsAllowedOrigin urls ("https://a.com" ∷ []) "https://a.com" "pet"
          × (true ≡ true)
          × (checked "alice" ≡ checked "alice")))
    × (¬ IsAllowedOrigin urls ("https://a.com" ∷ []) "https://a.com" "pet"
        → (open_ws urls ("https://a.com" ∷ []) knows true "https://a.com" "pet" 0).1 ≡ 0)
open_ws-IsAllowedOrigin_example =
    open_ws-IsAllowedOrigin urls ("https://a.com" ∷ []) knows true "https://a.com" "pet" "alice" 0
