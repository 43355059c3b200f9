-- ===== src/Identity/Did.antt =====
-- internal/identity/did.go: the parts of a DID that names a handle. `unescape` stands for url.PathUnescape.
use awiki_cli.Base.{
  ℕ, Bool, false, not, ◌&&◌, ◌||◌, List, [], ◌∷◌, Option, none, some, if◌then◌else◌, ◌==◌, Result,
  ok, err, length, ltb,
}
use awiki_cli.Text.{Text, text, trim_space, has_prefix, split, is_empty}

pub data DidError : Type 0 where
  invalid_did : DidError
  invalid_did_domain : DidError
  missing_did_path : DidError
  not_a_handle_did : DidError

-- strings.LastIndex at one code point, and the text behind it.
unfoldable pub behind_last : ℕ → Text → Option Text
behind_last sep [] = none
behind_last sep (c ∷ s) = elim (behind_last sep s) [
  | none ↦ if c == sep then some s else none
  | some t ↦ some t
]

unfoldable pub did_suffix : Text → Text
did_suffix did = elim (behind_last b':' did) [ none ↦ did | some t ↦ if is_empty t then did else t ]

unfoldable pub is_k1_did : Text → Bool
is_k1_did did = has_prefix (did_suffix (trim_space did)) (text "k1_")

unfoldable pub is_e1_did : Text → Bool
is_e1_did did = has_prefix (did_suffix (trim_space did)) (text "e1_")

-- The segments but the last one.
unfoldable pub without_last : List Text → List Text
without_last [] = []
without_last (s ∷ []) = []
without_last (s ∷ t ∷ ts) = s ∷ without_last (t ∷ ts)

-- The domain and the path of the parts, of which there are five or more.
unfoldable pub did_path : (Text → Option Text) → List Text → Result DidError (Text × List Text)
did_path unescape (did ∷ wba ∷ domain ∷ rest) = elim (unescape domain) [
  | none ↦ err invalid_did_domain
  | some d ↦ elim (without_last rest) [ [] ↦ err missing_did_path | s ∷ ss ↦ ok (d, s ∷ ss) ]
]
did_path unescape _ = err invalid_did

unfoldable pub parse_did_path : (Text → Option Text) → Text → Result DidError (Text × List Text)
parse_did_path unescape did =
    let trimmed = trim_space did in
    if not (has_prefix trimmed (text "did:wba:"))
    then err invalid_did
    else if ltb (length (split b':' trimmed)) 5
    then err invalid_did
    else did_path unescape (split b':' trimmed)

-- strings.EqualFold(s, "user"); the long s folds to s.
unfoldable pub is_user : Text → Bool
is_user (u ∷ s ∷ e ∷ r ∷ []) =
    (u == b'u' || u == b'U')
    && ((s == b's' || (s == b'S' || s == 0x17F))
        && ((e == b'e' || e == b'E') && (r == b'r' || r == b'R')))
is_user _ = false

unfoldable pub handle_path : Text × List Text → Result DidError (Text × List Text)
handle_path (domain, []) = err not_a_handle_did
handle_path (domain, s ∷ ss) = if is_user s then err not_a_handle_did else ok (domain, s ∷ ss)

unfoldable pub handle_path_prefix_from_did :
    (Text → Option Text) → Text → Result DidError (Text × List Text)
handle_path_prefix_from_did unescape did = elim (parse_did_path unescape did) [
  | err e ↦ err e
  | ok p ↦ handle_path p
]
