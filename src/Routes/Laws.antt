-- ===== src/Routes/Laws.antt =====
-- The registry of routes: it is kept in normal form, and adding and removing do what they say.
use awiki_cli.Base.{
  ok_or, Result-cases, ℕ, ◌≡◌, refl, true, false, List, [], ◌∷◌, ◌++◌, arith, ap, sym, ◌∙◌, Result,
  ok, err, if◌then◌else◌, Bool-cases, inl, inr,
}
use awiki_cli.Text.{Text, same, trim_space, is_empty, to_lower}
use awiki_cli.Text.Trim.{trim_space_idem}
use awiki_cli.Text.Lower.{IsCase, to_lower_idem, trim-lower}
use awiki_cli.Text.Order.{same_refl}
use awiki_cli.Routes.{
  Route, RouteError, RegistryFile, route_key, has_key, is_listed, without, normalize_route,
  normalize_from, load_routes, missing, unreadable, malformed, registry,
}

module _ (wide : ℕ → ℕ) where
  abbrev pub IsNormal : Route → Type 0
  IsNormal r = normalize_route wide r ≡ ok r

  -- Routes in normal form, no two with the same key and none with a key of `seen`.
  abbrev pub IsCanonical : List Text → List Route → Type 0
  IsCanonical seen [] = Unit
  IsCanonical seen (r ∷ rs) =
      IsNormal r × (has_key (route_key r) seen ≡ false) × IsCanonical (route_key r ∷ seen) rs

  -- A list in normal form is left as it is.
  pub normalize_from_of_canonical :
      (seen : List Text) (rs : List Route)
      → IsCanonical seen rs
      → normalize_from wide seen rs ≡ ok rs
  unfolding normalize_from
  normalize_from_of_canonical seen [] h = refl
  normalize_from_of_canonical seen (r ∷ rs) (n, d, c) =
      rw (n, d, normalize_from_of_canonical (route_key r ∷ seen) rs c) refl

  pub IsCanonical-snoc :
      (seen : List Text) (rs : List Route) (r : Route)
      → IsCanonical seen rs
      → IsNormal r
      → has_key (route_key r) seen ≡ false
      → is_listed r rs ≡ false
      → IsCanonical seen (rs ++ (r ∷ []))
  unfolding is_listed has_key
  IsCanonical-snoc seen [] r c n h l = (n, h, tt)
  IsCanonical-snoc seen (x ∷ rs) r (a, b, c) n h l =
      (a, b, IsCanonical-snoc (route_key x ∷ seen) rs r c n (ground arith) (ground arith))

  IsCanonical-fewer :
      (seen some_of : List Text) (rs : List Route)
      → ((k : Text) → has_key k some_of ≡ true → has_key k seen ≡ true)
      → IsCanonical seen rs
      → IsCanonical some_of rs
  unfolding has_key
  IsCanonical-fewer seen some_of [] s h = tt
  IsCanonical-fewer seen some_of (r ∷ rs) s (n, d, c) = (
    n,
    ground (arith, s (route_key r)),
    IsCanonical-fewer (route_key r ∷ seen) (route_key r ∷ some_of) rs (λ k h. ground (arith, s k))
        c,
  )

  pub IsCanonical-without :
      (seen : List Text) (r : Route) (rs : List Route)
      → IsCanonical seen rs
      → IsCanonical seen (without r rs)
  unfolding without has_key
  IsCanonical-without seen r [] h = tt
  IsCanonical-without seen r (x ∷ rs) (n, d, c) =
      elim (Bool-cases (same (route_key x) (route_key r))) [
        | inl e ↦ rw e (
            IsCanonical-without seen r rs
              (IsCanonical-fewer (route_key x ∷ seen) seen rs (λ k h. ground arith) c))
        | inr e ↦ rw e (n, d, IsCanonical-without (route_key x ∷ seen) r rs c)
      ]

pub listed_snoc : (r : Route) (rs : List Route) → is_listed r (rs ++ (r ∷ [])) ≡ true
unfolding is_listed
listed_snoc r [] = ground (arith, same_refl (route_key r))
listed_snoc r (x ∷ rs) = ground (arith, listed_snoc r rs)

pub listed_without : (r : Route) (rs : List Route) → is_listed r (without r rs) ≡ false
unfolding is_listed without
listed_without r [] = refl
listed_without r (x ∷ rs) = ground (arith, listed_without r rs)

module _ {wide : ℕ → ℕ} (case : IsCase wide) where
  IsNormal-of_parts :
      (channel to : Text)
      → is_empty channel ≡ false
      → is_empty to ≡ false
      → to_lower wide (trim_space channel) ≡ channel
      → trim_space to ≡ to
      → IsNormal wide (record { channel = channel; to = to })
  unfolding normalize_route
  IsNormal-of_parts channel to c t hc ht = rw (hc, ht, c, t) refl

  folded : (c : Text) → let d = to_lower wide (trim_space c) in to_lower wide (trim_space d) ≡ d
  folded c = ap (to_lower wide) (trim-lower case c) ∙ to_lower_idem case (trim_space c)

  normalize_route_value :
      (r : Route)
      → is_empty (to_lower wide (trim_space r.channel)) ≡ false
      → is_empty (trim_space r.to) ≡ false
      → normalize_route wide r
        ≡ ok (record { channel = to_lower wide (trim_space r.channel); to = trim_space r.to })
  unfolding normalize_route
  normalize_route_value r e f = rw (e, f) refl

  -- The route that normalising gives is left as it is by normalising again.
  pub normalize_route_idem :
      (r s : Route) → normalize_route wide r ≡ ok s → normalize_route wide s ≡ ok s
  normalize_route_idem r s h = elim (Bool-cases (is_empty (to_lower wide (trim_space r.channel)))) [
    | inl e ↦ unfold normalize_route in ground (arith, h, e)
    | inr e ↦ elim (Bool-cases (is_empty (trim_space r.to))) [
      | inl f ↦ unfold normalize_route in ground (arith, h, e, f)
      | inr f ↦
          let q = ap (ok_or s) (sym (normalize_route_value r e f) ∙ h) in
          rw (sym q) (IsNormal-of_parts _ _ e f (folded r.channel) (trim_space_idem r.to))
    ]
  ]

  -- The routes behind the first one, whose key is seen from now on.
  abbrev rest_from : List Text → Route → List Route → Result RouteError (List Route)
  rest_from seen item rs =
      normalize_from wide (if has_key (route_key item) seen then seen else (route_key item ∷ seen))
        rs

  normalize_from_cons :
      (seen : List Text) (r item : Route) (rs rest : List Route)
      → normalize_route wide r ≡ ok item
      → rest_from seen item rs ≡ ok rest
      → normalize_from wide seen (r ∷ rs)
        ≡ ok (if has_key (route_key item) seen then rest else item ∷ rest)
  unfolding normalize_from
  normalize_from_cons seen r item rs rest e f = rw (e, f) refl

  normalize_from_cons_failed :
      (seen : List Text) (r item : Route) (rs : List Route) (x : RouteError)
      → normalize_route wide r ≡ ok item
      → rest_from seen item rs ≡ err x
      → normalize_from wide seen (r ∷ rs) ≡ err x
  unfolding normalize_from
  normalize_from_cons_failed seen r item rs x e f = rw (e, f) refl

  normalize_from_failed :
      (seen : List Text) (r : Route) (rs : List Route) (x : RouteError)
      → normalize_route wide r ≡ err x
      → normalize_from wide seen (r ∷ rs) ≡ err x
  unfolding normalize_from
  normalize_from_failed seen r rs x e = rw e refl

  IsCanonical-cons :
      (seen : List Text) (item : Route) (rest : List Route)
      → IsNormal wide item
      → IsCanonical wide
          (if has_key (route_key item) seen then seen else (route_key item ∷ seen))
          rest
      → IsCanonical wide seen (if has_key (route_key item) seen then rest else item ∷ rest)
  IsCanonical-cons seen item rest n c = elim (Bool-cases (has_key (route_key item) seen)) [
    | inl e ↦ rw e (rw e at c)
    | inr e ↦ rw e (n, e, rw e at c)
  ]

  normalize_from-IsCanonical :
      (seen : List Text) (rs out : List Route)
      → normalize_from wide seen rs ≡ ok out
      → IsCanonical wide seen out
  normalize_from-IsCanonical seen [] out h = unfold normalize_from in rw (sym (ap (ok_or []) h)) tt
  normalize_from-IsCanonical seen (r ∷ rs) out h = elim (Result-cases (normalize_route wide r)) [
    | inr (x, e) ↦ absurd (ground (arith, normalize_from_failed seen r rs x e, h))
    | inl (item, e) ↦ elim (Result-cases (rest_from seen item rs)) [
      | inr (x, f) ↦ absurd (ground (arith, normalize_from_cons_failed seen r item rs x e f, h))
      | inl (rest, f) ↦ rw (ap (ok_or []) (sym h ∙ normalize_from_cons seen r item rs rest e f)) (
          IsCanonical-cons seen item rest (normalize_route_idem r item e) (
            normalize_from-IsCanonical
              (if has_key (route_key item) seen then seen else (route_key item ∷ seen)) rs rest f))
    ]
  ]

  -- The routes of a load that succeeds are in normal form, with no key twice.
  pub load_routes-IsCanonical :
      (file : RegistryFile) (rs : List Route)
      → load_routes wide file ≡ ok rs
      → IsCanonical wide [] rs
  unfolding load_routes
  load_routes-IsCanonical missing rs h = rw (sym (ap (ok_or []) h)) tt
  load_routes-IsCanonical unreadable rs h = cc
  load_routes-IsCanonical malformed rs h = cc
  load_routes-IsCanonical (registry xs) rs h = normalize_from-IsCanonical [] xs rs h
