-- ===== src/Bot.antt =====
-- scripts/bot/strategy.go: the action that the bot chooses. The maps of seen ids is a list of them.
use pet.Base.{
  ℕ, ◌<◌, String, ℤ, pos, Bool, true, false, not, ◌&&◌, ◌||◌, List, [], ◌∷◌, ◌++◌, map, Option,
  none, some, if◌then◌else◌, str_eq, ltb, leb_ℤ, length, get_elem?,
}
use pet.Deck.{Card, Catalog, get, type_minion}
use pet.Battle.Model.{Minion, Action, board_limit, play_card_kind, attack_kind, end_turn_kind}
use pet.Battle.View.{View}
pub mod Found
pub mod Legal
pub mod Eager
pub mod Client

-- `*rand.Rand` with its `Intn`, which answers below its argument.
pub record Rng : Type 1 where
  pub Source : Type 0
  pub intn : Source → ℕ → ℕ × Source
  pub in_range : (r : Source) (n : ℕ) → 0 < n → (intn r n).0 < n

abbrev pub play_of : String → Action
play_of id = record { kind = play_card_kind; card_id = id; inst_id = ""; target = "" }

abbrev pub attack_of : Minion → String → Action
attack_of m target = record {
  kind = attack_kind;
  card_id = "";
  inst_id = m.inst_id;
  target = target;
}

abbrev pub stop : Action
stop = record { kind = end_turn_kind; card_id = ""; inst_id = ""; target = "" }

unfoldable pub is_seen : List String → String → Bool
is_seen [] id = false
is_seen (x ∷ seen) id = str_eq x id || is_seen seen id

-- `ok && c.Type == deck.TypeMinion && c.Cost <= v.Me.Mana`
unfoldable pub is_playable : Option Card → ℤ → Bool
is_playable none mana = false
is_playable (some c) mana = str_eq c.kind type_minion && leb_ℤ c.cost mana

-- The loop over the hand.
unfoldable pub plays_from : Catalog → ℤ → List String → List String → List Action
plays_from cat mana seen [] = []
plays_from cat mana seen (id ∷ hand) = elim (is_seen seen id) [
  | true ↦ plays_from cat mana seen hand
  | false ↦
      let rest = plays_from cat mana (id ∷ seen) hand in
      if is_playable (get cat id) mana then play_of id ∷ rest else rest
]

-- The loop over the bot's board, with the loop over the opponent's in it.
unfoldable pub attacks_from : List Minion → List Minion → List Action
attacks_from opp [] = []
attacks_from opp (m ∷ ms) =
    let rest = attacks_from opp ms in
    if not m.can_attack || leb_ℤ m.atk (pos 0)
    then rest
    else attack_of m "face" ∷ map (λ (o : Minion). attack_of m o.inst_id) opp ++ rest

unfoldable pub candidates : View → Catalog → List Action
candidates v cat =
    (if ltb (length v.me.board) board_limit then plays_from cat v.me.mana [] v.me.hand else [])
    ++ attacks_from v.opp.board v.me.board

-- An index out of range panics: then there is no action.
unfoldable pub pick : (R : Rng) → List Action → R.Source → Option Action × R.Source
pick R [] rng = (some stop, rng)
pick R (a ∷ cands) rng =
    let (k, rng') = R.intn rng (length (a ∷ cands)) in (get_elem? (a ∷ cands) k, rng')

unfoldable pub choose_action : (R : Rng) → View → Catalog → R.Source → Option Action × R.Source
choose_action R v cat rng = pick R (candidates v cat) rng
