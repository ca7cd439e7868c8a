-- ===== src/Client/Selectors/Tests.antt =====
-- Runs of the theorems on selectors.
use rpcx.Base.{
  ℕ, ◌+◌, ◌%◌, ◌≡◌, refl, arith, List, [], ◌∷◌, Option, none, some, Bytes, bytes, bytes_eq,
  get_elem?,
}
use rpcx.Base.Dict.{lookup, bytes_eq_inst}
use rpcx.Client.Selectors.{chosen, RoundRobin, new_weighted, weighted_update, create_weighted}
use rpcx.Client.Selectors.Turns.{selects, IsFair, new_weighted-IsFair}
use rpcx.Client.Selectors.Rounds.{turns, round_robin_turns, weighted_update_stale}

-- The metadata is one digit, or no weight.
abbrev digit : Bytes → Option ℕ
digit [] = none
digit (b ∷ _) = some b

-- Three servers, of the weights 4, 1 and 2.
abbrev three : List (Bytes × Bytes)
three = (bytes "a", 4 ∷ []) ∷ (bytes "b", []) ∷ (bytes "c", 2 ∷ []) ∷ []

new_weighted-IsFair_example :
    IsFair (selects 7 (new_weighted digit three)).0 (create_weighted digit three)
unfolding create_weighted lookup bytes_eq
new_weighted-IsFair_example =
    new_weighted-IsFair digit three (refl, (refl, (refl, tt))) (omega arith) (omega arith)

-- A selector that has had four turns.
abbrev turned : RoundRobin
turned = record { servers = bytes "a" ∷ bytes "b" ∷ bytes "c" ∷ []; i = 1 }

round_robin_turns_example :
    (name : Bytes) × (get_elem? turned.servers ((1 + 4) % 3) ≡ some name)
    × (get_elem? (turns 6 turned).0 4 ≡ some (chosen name))
round_robin_turns_example = round_robin_turns 6 4 turned (omega arith) (omega arith)

weighted_update_stale_run :
    (selects 3 (weighted_update digit ((bytes "x", []) ∷ []) (new_weighted digit three))).0
    ≡ (selects 3 (weighted_update digit ((bytes "y", []) ∷ three) (new_weighted digit three))).0
weighted_update_stale_run =
    weighted_update_stale digit (bytes "x", []) (bytes "y", []) [] three (new_weighted digit three)
      3
