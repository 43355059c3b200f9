-- ===== src/Routes.antt =====
-- internal/runtime/openclawnotify/routes.go: the registry of routes to which the host's
-- notifications go. `wide` is unicode.ToLower beyond ASCII; the JSON file holds a list of routes.
mod Tests
pub mod Laws
pub mod Changes
pub mod Session
use awiki_cli.Base.{
  ℕ, Bool, true, false, not, ◌&&◌, ◌||◌, List, [], ◌∷◌, ◌++◌, if◌then◌else◌, ◌==◌, ltb, length,
  Result, ok, err, ◌>>=◌, Option, none, some,
}
use awiki_cli.Text.{Text, text, same, trim_space, is_empty, to_lower, split, join}

pub record Route : Type 0 where
  pub channel : Text
  pub to : Text

pub data RouteError : Type 0 where
  both_given : RouteError
  none_given : RouteError
  session_key_required : RouteError
  bad_format : Text → RouteError
  bad_prefix : Text → RouteError
  bad_route_type : Text → RouteError
  channel_required : RouteError
  target_required : RouteError
  read_failed : RouteError
  parse_failed : RouteError
  write_failed : RouteError

pub data RegistryFile : Type 0 where
  missing : RegistryFile
  unreadable : RegistryFile
  malformed : RegistryFile
  registry : List Route → RegistryFile

-- The calls of writeAtomicFile, in their order.
pub data Call : Type 0 where
  create_temp write_temp sync_temp close_temp change_mode rename sync_directory : Call

abbrev pub calls : List Call
calls =
    create_temp ∷ write_temp ∷ sync_temp ∷ close_temp ∷ change_mode ∷ rename ∷ sync_directory ∷ []

-- A write in which no call fails, or in which the call does.
pub data WriteFault : Type 0 where
  fine : WriteFault
  fails : Call → WriteFault

-- The registry file, and the temporary file beside it if it is there.
pub record Directory : Type 0 where
  pub target : RegistryFile
  pub temp : Option RegistryFile

abbrev pub rank : Call → ℕ
rank create_temp = 0
rank write_temp = 1
rank sync_temp = 2
rank close_temp = 3
rank change_mode = 4
rank rename = 5
rank sync_directory = 6

abbrev pub breaks : WriteFault → Call → Bool
breaks fine c = false
breaks (fails x) c = rank x == rank c

abbrev pub renamed : Option RegistryFile → RegistryFile → RegistryFile
renamed none old = old
renamed (some file) old = file

-- A new file is empty, which does not parse.
unfoldable pub perform : List Route → Call → Directory → Directory
perform rs create_temp d = record d { temp = some malformed }
perform rs write_temp d = record d { temp = some (registry rs) }
perform rs sync_temp d = d
perform rs close_temp d = d
perform rs change_mode d = d
perform rs rename d = record { target = renamed d.temp d.target; temp = none }
perform rs sync_directory d = d

unfoldable pub run_calls :
    WriteFault → List Route → List Call → Directory → Result RouteError (Unit {0}) × Directory
run_calls fault rs [] d = (ok tt, d)
run_calls fault rs (c ∷ cs) d =
    let rest = run_calls fault rs cs (perform rs c d) in
    if breaks fault c then (err write_failed, d) else rest

-- The deferred removal of the temporary file.
abbrev pub cleaned :
    Result RouteError (Unit {0}) × Directory → Result RouteError (Unit {0}) × Directory
cleaned (r, d) = (r, record d { temp = none })

unfoldable pub write_atomic_file :
    WriteFault → List Route → Directory → Result RouteError (Unit {0}) × Directory
unfolding run_calls perform
write_atomic_file fault rs d = cleaned (run_calls fault rs calls d)

unfoldable pub replace :
    WriteFault → List Route → RegistryFile → Result RouteError (Unit {0}) × RegistryFile
unfolding write_atomic_file
replace fault rs file =
    let out = write_atomic_file fault rs (record { target = file; temp = none }) in
    (out.0, out.1.target)

-- The write behind the normalising, if that succeeds.
abbrev pub put :
    WriteFault
    → RegistryFile
    → Result RouteError (List Route)
    → Result RouteError (Unit {0}) × RegistryFile
put fault file (ok rs) = replace fault rs file
put fault file (err e) = (err e, file)

-- The key by which routes are compared: the channel, a zero byte and the target.
abbrev pub route_key : Route → Text
route_key r = r.channel ++ (0 ∷ r.to)

unfoldable pub has_key : Text → List Text → Bool
has_key k [] = false
has_key k (x ∷ seen) = same x k || has_key k seen

-- Whether a listed route has the key, as the loop of `AddRoute` looks for it.
unfoldable pub is_listed : Route → List Route → Bool
is_listed r [] = false
is_listed r (x ∷ rs) = same (route_key x) (route_key r) || is_listed r rs

-- The loop of `RemoveRoute`.
unfoldable pub without : Route → List Route → List Route
without r [] = []
without r (x ∷ rs) = if same (route_key x) (route_key r) then without r rs else (x ∷ without r rs)

-- The results of `AddRoute` and `RemoveRoute`: the route, whether the list changed, the list.
abbrev pub Change : Type 0
Change = Result RouteError (Route × Bool × List Route)

-- The outcome behind a write.
abbrev pub written :
    Route → List Route → Result RouteError (Unit {0}) × RegistryFile → Change × RegistryFile
written r rs (ok _, file) = (ok (r, true, rs), file)
written r rs (err e, file) = (err e, file)

-- A change of the loaded list by a route in normal form.
abbrev pub changing :
    (Route → List Route → RegistryFile → Change × RegistryFile)
    → Result RouteError Route
    → Result RouteError (List Route)
    → RegistryFile
    → Change × RegistryFile
changing f (err e) loaded file = (err e, file)
changing f (ok r) (err e) file = (err e, file)
changing f (ok r) (ok rs) file = f r rs file

module _ (wide : ℕ → ℕ) where
  unfoldable pub normalize_route : Route → Result RouteError Route
  normalize_route r =
      let channel = to_lower wide (trim_space r.channel) in
      let to = trim_space r.to in
      if is_empty channel
      then err channel_required
      else if is_empty to
      then err target_required
      else ok (record { channel = channel; to = to })

  -- The parts of a session key, `agent:<name>:<channel>:<type>:<target>`, where the target may hold
  -- colons of its own.
  unfoldable pub route_of_parts : Text → List Text → Result RouteError Route
  route_of_parts key (prefix ∷ name ∷ channel ∷ kind ∷ first ∷ rest) =
      if not (same prefix (text "agent"))
      then err (bad_prefix key)
      else if not (
          same kind (text "direct")
          || same kind (text "group")
          || same kind (text "channel")
          || same kind (text "room"))
      then err (bad_route_type kind)
      else normalize_route (record { channel = channel; to = join b':' (first ∷ rest) })
  route_of_parts key _ = err (bad_format key)

  unfoldable pub parse_session_key : Text → Result RouteError Route
  parse_session_key key =
      let s = trim_space key in
      if is_empty s then err session_key_required else route_of_parts s (split b':' s)

  unfoldable pub resolve_route_input : Text → Text → Text → Result RouteError Route
  resolve_route_input channel to session_key =
      let c = trim_space channel in
      let t = trim_space to in
      let k = trim_space session_key in
      if not (is_empty k) && (not (is_empty c) || not (is_empty t))
      then err both_given
      else if not (is_empty k)
      then parse_session_key k
      else if is_empty c || is_empty t
      then err none_given
      else normalize_route (record { channel = c; to = t })

  -- The loop of `LoadRoutes` and `WriteRoutes`: routes in normal form, the first of each key.
  unfoldable pub normalize_from : List Text → List Route → Result RouteError (List Route)
  normalize_from seen [] = ok []
  normalize_from seen (r ∷ rs) = do
    item ← normalize_route r
    let known = has_key (route_key item) seen
    rest ← normalize_from (if known then seen else (route_key item ∷ seen)) rs
    ok (if known then rest else (item ∷ rest))

  unfoldable pub load_routes : RegistryFile → Result RouteError (List Route)
  load_routes missing = ok []
  load_routes unreadable = err read_failed
  load_routes malformed = err parse_failed
  load_routes (registry rs) = normalize_from [] rs

  -- Nothing is written when a route has no normal form.
  unfoldable pub write_routes :
      WriteFault → List Route → RegistryFile → Result RouteError (Unit {0}) × RegistryFile
  write_routes fault rs file = put fault file (normalize_from [] rs)

  unfoldable pub add_to : WriteFault → Route → List Route → RegistryFile → Change × RegistryFile
  add_to fault r rs file =
      if is_listed r rs
      then (ok (r, false, rs), file)
      else written r (rs ++ (r ∷ [])) (write_routes fault (rs ++ (r ∷ [])) file)

  unfoldable pub remove_from :
      WriteFault → Route → List Route → RegistryFile → Change × RegistryFile
  remove_from fault r rs file =
      if is_listed r rs
      then written r (without r rs) (write_routes fault (without r rs) file)
      else (ok (r, false, rs), file)

  unfoldable pub add_route : WriteFault → Route → RegistryFile → Change × RegistryFile
  add_route fault r file = changing (add_to fault) (normalize_route r) (load_routes file) file

  unfoldable pub remove_route : WriteFault → Route → RegistryFile → Change × RegistryFile
  remove_route fault r file =
      changing (remove_from fault) (normalize_route r) (load_routes file) file
