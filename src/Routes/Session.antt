-- ===== src/Routes/Session.antt =====
-- Session keys: which of them parse, and to what.
use awiki_cli.Base.{
  Bool-cases, inl, inr, err, false, if◌then◌else◌, ℕ, ◌≡◌, ◌≢◌, refl, List, [], ◌∷◌, ◌++◌, ap, ◌∙◌,
}
use awiki_cli.Text.{Text, text, same, trim_space, is_empty, split, join}
use awiki_cli.Text.Split.{Free, Free-of_all, join-split, split-append, split-ne-nil}
use awiki_cli.Text.Trim.{trim_space_idem}
use awiki_cli.Routes.{
  resolve_route_input, both_given, route_of_parts, parse_session_key, normalize_route,
}

-- agent:<name>:<channel>:direct:<target>
unfoldable pub session_key : Text → Text → Text → Text
session_key name channel target =
    text "agent"
    ++ (b':' ∷ (name ++ (b':' ∷ (channel ++ (b':' ∷ (text "direct" ++ (b':' ∷ target)))))))

parts :
    (name channel target : Text)
    → Free b':' name
    → Free b':' channel
    → split b':' (session_key name channel target)
      ≡ text "agent" ∷ name ∷ channel ∷ text "direct" ∷ split b':' target
unfolding session_key
parts name channel target hn hc =
    split-append b':' (text "agent") _ (Free-of_all b':' (text "agent") refl)
    ∙ ap (λ ps. text "agent" ∷ ps)
        (split-append b':' name _ hn
          ∙ ap (λ ps. name ∷ ps)
              (split-append b':' channel _ hc
                ∙ ap (λ ps. channel ∷ ps)
                    (split-append b':' (text "direct") target
                      (Free-of_all b':' (text "direct") refl))))

route_of_direct :
    (wide : ℕ → ℕ) (key name channel : Text) (ps : List Text)
    → ps ≢ []
    → route_of_parts wide key (text "agent" ∷ name ∷ channel ∷ text "direct" ∷ ps)
      ≡ normalize_route wide (record { channel = channel; to = join b':' ps })
unfolding route_of_parts same
route_of_direct wide key name channel [] h = absurd (h refl)
route_of_direct wide key name channel (p ∷ ps) h = refl

-- A key that is agent:<name>:<channel>:direct:<target> up to the spaces around it, with no colon in
-- the name and the channel, parses as the normal form of the channel and the target, which keeps
-- the colons that it has.
pub parse_session_key-direct :
    (wide : ℕ → ℕ) (key name channel target : Text)
    → Free b':' name
    → Free b':' channel
    → trim_space key ≡ session_key name channel target
    → parse_session_key wide key ≡ normalize_route wide (record { channel = channel; to = target })
unfolding parse_session_key normalize_route session_key
parse_session_key-direct wide key name channel target hn hc e =
    rw (e, parts name channel target hn hc)
      (route_of_direct wide _ name channel _ (split-ne-nil b':' target)
        ∙ ap (λ t. normalize_route wide (record { channel = channel; to = t }))
            (join-split b':' target))

-- A channel and a target that are not blank, given without a session key, resolve to their normal
-- form; given with a session key that is not blank, each of them is refused.
pub resolve_route_input_lem :
    (wide : ℕ → ℕ) (channel to key : Text)
    → is_empty (trim_space channel) ≡ false
    → is_empty (trim_space to) ≡ false
    → resolve_route_input wide channel to key ≡ (
        if is_empty (trim_space key)
        then normalize_route wide (record { channel = channel; to = to })
        else err both_given)
unfolding resolve_route_input normalize_route
resolve_route_input_lem wide channel to key hc ht = elim (Bool-cases (is_empty (trim_space key))) [
  | inl e ↦ rw (e, hc, ht, trim_space_idem channel, trim_space_idem to, ht) refl
  | inr e ↦ rw (e, hc) refl
]
