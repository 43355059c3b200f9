-- ===== src/Routes/Tests.antt =====
-- Runs on a registry of one route.
use awiki_cli.Base.{ℕ, ◌≡◌, refl, true, false, [], ◌∷◌, arith, ok}
use awiki_cli.Text.{text, same, trim_space, trim_left, trim_right, is_space, to_lower, split, join}
use awiki_cli.Text.Lower.{IsCase}
use awiki_cli.Routes.{
  Route, registry, fine, fails, rename, replace, has_key, is_listed, without, normalize_route,
  route_of_parts, parse_session_key, normalize_from, load_routes, write_routes, add_to, remove_from,
  add_route, remove_route,
}
use awiki_cli.Routes.Laws.{load_routes-IsCanonical, IsCanonical}
use awiki_cli.Routes.Changes.{
  Loads, add_route_lem, remove_route_lem, change-LoadsEither, LoadsEither, with_route,
  without_route,
}
use awiki_cli.Routes.Session.{session_key}

-- No letters beyond ASCII.
abbrev plain : ℕ → ℕ
plain c = c

plain-IsCase : IsCase plain
plain-IsCase = record { wide_idem = λ c h. ground arith; wide_space = λ c h. refl }

-- Everything that a run goes through.
runs : Unit {0}
unfolding same trim_space trim_left trim_right is_space to_lower split join replace has_key
    is_listed without normalize_route route_of_parts parse_session_key normalize_from load_routes
    write_routes add_to remove_from add_route remove_route session_key
runs = tt

abbrev given : Route
given = record { channel = text " Telegram"; to = text "42 " }

abbrev normal : Route
normal = record { channel = text "telegram"; to = text "42" }

abbrev other : Route
other = record { channel = text "slack"; to = text "general" }

load_routes-IsCanonical_example : IsCanonical plain [] (normal ∷ [])
unfolding runs
load_routes-IsCanonical_example =
    load_routes-IsCanonical plain-IsCase (registry (given ∷ normal ∷ [])) (normal ∷ []) refl

add_route_lem_example :
    ((add_route plain fine given (registry (other ∷ []))).0
      ≡ ok (normal, true, other ∷ normal ∷ []))
    × Loads plain (add_route plain fine given (registry (other ∷ []))).1 (other ∷ normal ∷ [])
    × (is_listed normal (other ∷ normal ∷ []) ≡ true)
unfolding runs
add_route_lem_example =
    add_route_lem plain-IsCase given normal (other ∷ []) (registry (other ∷ [])) refl refl

remove_route_lem_example :
    ((remove_route plain fine given (registry (normal ∷ other ∷ []))).0
      ≡ ok (normal, true, other ∷ []))
    × Loads plain (remove_route plain fine given (registry (normal ∷ other ∷ []))).1 (other ∷ [])
    × (is_listed normal (other ∷ []) ≡ false)
unfolding runs
remove_route_lem_example =
    remove_route_lem plain-IsCase given normal (normal ∷ other ∷ [])
      (registry (normal ∷ other ∷ [])) refl refl

change-LoadsEither_example :
    LoadsEither plain
      (fails rename)
      (add_route plain (fails rename) given (registry (other ∷ []))).1
      (other ∷ [])
      (with_route normal (other ∷ []))
    × LoadsEither plain
        (fails rename)
        (remove_route plain (fails rename) given (registry (other ∷ []))).1
        (other ∷ [])
        (without_route normal (other ∷ []))
unfolding runs
change-LoadsEither_example =
    change-LoadsEither plain-IsCase (fails rename) given normal (other ∷ []) (registry (other ∷ []))
      refl refl
