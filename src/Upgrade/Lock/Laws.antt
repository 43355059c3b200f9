-- ===== src/Upgrade/Lock/Laws.antt =====
-- When the upgrade lock is granted, and what a refusal leaves.
use awiki_cli.Base.{
  if◌then◌else◌, ◌∙◌, ap, ℕ, ◌-◌, ◌≤◌, ◌≡◌, refl, ◌≢◌, Bool, true, false, [], Option, none, some,
  Result, ok, err, arith, inl, inr, ◌↔◌, Bool-cases,
}
use awiki_cli.Text.{Text}
use awiki_cli.Text.Order.{same_iff}
use awiki_cli.Upgrade.Machine.{
  File, absent, unusable, stored, LockMetadata, Machine, Error, locked, ◌>>=◌, write, attempt,
}
use awiki_cli.Upgrade.Machine.Rules.{
  Ensures, success, failure, Ensures-bind, write-Ensures, write_of_calm, after_of_ok,
}
use awiki_cli.Upgrade.Lock.{
  Host, os_file_lock_scheme, legacy_lock_max_age, parse_lock_started_at, is_young,
  is_active_legacy_lock, blocks, new_lock_metadata, is_unset, claim_read, take, hold, created,
  or_release, open_lock_file, acquire_os_lock, release_os_lock, write_lock_metadata,
  claim_lock_file, acquire_file_lock,
}

-- A lock file of an older release that still counts: it does not name the present scheme, its
-- process lives, and its start can be read and lies no more than 24 hours back.
pub record IsLegacyActive (h : Host) (time : ℕ) (x : LockMetadata) : Type 0 where
  pub other_scheme : x.lock_scheme ≢ os_file_lock_scheme
  pub has_pid : is_unset x.pid ≡ false
  pub alive : h.process_alive x.pid ≡ true
  pub start : ℕ
  pub parsed : parse_lock_started_at h x.started_at ≡ some start
  pub young : time - start ≤ legacy_lock_max_age

is_young-true :
    (time : ℕ) (o : Option ℕ)
    → is_young time o ≡ true
    → (s : ℕ) × (o ≡ some s) × (time - s ≤ legacy_lock_max_age)
unfolding is_young
is_young-true time none h = absurd (ground (arith, h))
is_young-true time (some s) h = (s, refl, ground arith)

-- A lock file's content is an active legacy lock exactly when its scheme is not the present one,
-- its process identifier is above zero, that process lives, and its start can be parsed and lies at
-- most 24 hours back.
pub is_active_legacy_lock_iff :
    (h : Host) (time : ℕ) (x : LockMetadata)
    → (is_active_legacy_lock h time x ≡ true) ↔ IsLegacyActive h time x
unfolding is_active_legacy_lock
is_active_legacy_lock_iff h time x = (
  λ e.
      let y : is_young time (parse_lock_started_at h x.started_at) ≡ true = ground (arith, e) in
      let (s, p, q) = is_young-true time (parse_lock_started_at h x.started_at) y in
      record {
        other_scheme = ground (arith, e, same_iff x.lock_scheme os_file_lock_scheme);
        has_pid = ground (arith, e);
        alive = ground (arith, e);
        start = s;
        parsed = p;
        young = q;
      },
  λ a. unfold is_young in ground (arith, same_iff x.lock_scheme os_file_lock_scheme),
)

-- The machine with the lock file opened, and with it written.
opened : Machine → Machine
opened m = record m { disk = record m.disk { lock_file = created m.disk.lock_file } }

abbrev with_lock_file : Machine → LockMetadata → Machine
with_lock_file m x = record m { disk = record m.disk { lock_file = stored x } }

write_lock_metadata_of_calm :
    (x : LockMetadata) (m : Machine)
    → m.faults ≡ []
    → write_lock_metadata x m ≡ (ok tt, with_lock_file m x)
unfolding write_lock_metadata
write_lock_metadata_of_calm x m f =
    after_of_ok (write (λ d. record d { lock_file = unusable })) _ m _ tt (write_of_calm _ m f)
    ∙ write_of_calm _ (record m { disk = record m.disk { lock_file = unusable } }) f

blocks-created : (h : Host) (t : ℕ) (x : File LockMetadata) → blocks h t (created x) ≡ blocks h t x
blocks-created h t absent = refl
blocks-created h t unusable = refl
blocks-created h t (stored x) = refl

after_open :
    (h : Host) (app : Text) (m : Machine)
    → m.faults ≡ []
    → acquire_file_lock h app m
      ≡ (acquire_os_lock >>= λ _ k. or_release (claim_lock_file h app k)) (opened m)
unfolding acquire_file_lock open_lock_file opened
after_open h app m f = after_of_ok open_lock_file _ m (opened m) tt (write_of_calm _ m f)

-- Without faults: while another process holds the OS lock, the answer is that the workspace is
-- locked, and at most an empty lock file has been made.
pub acquire-held :
    (h : Host) (app : Text) (m : Machine)
    → m.faults ≡ []
    → m.held_elsewhere ≡ true
    → acquire_file_lock h app m
      ≡ (err locked, record m { disk = record m.disk { lock_file = created m.disk.lock_file } })
acquire-held h app m f o = after_open h app m f ∙ (unfold ◌>>=◌ acquire_os_lock opened in (rw o))

abbrev locked_open : Machine → Machine
locked_open m = record m {
  disk = record m.disk { lock_file = created m.disk.lock_file };
  holding = true;
}

attempt_of_calm : (m : Machine) → m.faults ≡ [] → attempt m ≡ (ok tt, m)
unfolding attempt
attempt_of_calm m f = write_of_calm _ m f

os_lock_of_free :
    (m : Machine)
    → m.faults ≡ []
    → m.held_elsewhere ≡ false
    → acquire_os_lock (opened m) ≡ (ok tt, locked_open m)
unfolding acquire_os_lock opened
os_lock_of_free m f o =
    ap (λ b. take b (opened m)) o
    ∙ after_of_ok attempt (λ _. hold) (opened m) (opened m) tt (attempt_of_calm (opened m) f)

claim_read_of_calm :
    (h : Host) (app : Text) (m : Machine)
    → m.faults ≡ []
    → or_release (claim_read h app m) ≡ (
        if blocks h m.ticks m.disk.lock_file
        then (err locked, record m { holding = false })
        else (ok tt, with_lock_file m (new_lock_metadata h app m.ticks)))
unfolding claim_read release_os_lock
claim_read_of_calm h app m f = elim (Bool-cases (blocks h m.ticks m.disk.lock_file)) [
  | inl e ↦ rw e
  | inr e ↦ rw e (ap or_release (write_lock_metadata_of_calm _ m f))
]

claim_of_calm :
    (h : Host) (app : Text) (m : Machine)
    → m.faults ≡ []
    → or_release (claim_lock_file h app m) ≡ (
        if blocks h m.ticks m.disk.lock_file
        then (err locked, record m { holding = false })
        else (ok tt, with_lock_file m (new_lock_metadata h app m.ticks)))
unfolding claim_lock_file
claim_of_calm h app m f =
    ap or_release (after_of_ok attempt _ m m tt (attempt_of_calm m f))
    ∙ claim_read_of_calm h app m f

-- Without faults: if the OS lock is free, an active legacy lock in the file refuses the lock, and
-- the file keeps it; otherwise the lock is granted and the file names this process.
pub acquire-free :
    (h : Host) (app : Text) (m : Machine)
    → m.faults ≡ []
    → m.held_elsewhere ≡ false
    → acquire_file_lock h app m ≡ (
        if blocks h m.ticks m.disk.lock_file
        then (
          err locked,
          record m {
            disk = record m.disk { lock_file = created m.disk.lock_file };
            holding = false;
          },
        )
        else (
          ok tt,
          record m {
            disk = record m.disk { lock_file = stored (new_lock_metadata h app m.ticks) };
            holding = true;
          },
        ))
acquire-free h app m f o =
    after_open h app m f
    ∙ after_of_ok acquire_os_lock _ (opened m) (locked_open m) tt (os_lock_of_free m f o)
    ∙ claim_of_calm h app (locked_open m) f
    ∙ ap
        (λ (b : Bool).
          if b
          then (
            err locked,
            record m {
              disk = record m.disk { lock_file = created m.disk.lock_file };
              holding = false;
            },
          )
          else (
            ok tt,
            record m {
              disk = record m.disk { lock_file = stored (new_lock_metadata h app m.ticks) };
              holding = true;
            },
          ))
        (blocks-created h m.ticks m.disk.lock_file)

take_ticks :
    {t : ℕ} (b : Bool) (m : Machine)
    → m.holding ≡ false
    → m.ticks ≡ t
    → Ensures (λ _ k. (k.ticks ≡ t) × (k.holding ≡ true)) (λ k. k.holding ≡ false) (take b m)
unfolding attempt
take_ticks true m n e = failure n
take_ticks {t} false m n e =
    Ensures-bind _ _ _ (write-Ensures {good = λ k. k.ticks ≡ t} _ m (λ _. e) (λ _. n) (λ _. n))
      λ _ k u. success (u, refl)

os_lock_ticks :
    {t : ℕ} (m : Machine)
    → m.holding ≡ false
    → m.ticks ≡ t
    → Ensures
        (λ _ k. (k.ticks ≡ t) × (k.holding ≡ true))
        (λ k. k.holding ≡ false)
        (acquire_os_lock m)
unfolding acquire_os_lock
os_lock_ticks m n e = take_ticks m.held_elsewhere m n e

-- The file that a grant leaves.
abbrev Claimed : Host → Text → Machine → Machine → Type 0
Claimed h app m k =
    (k.holding ≡ true) × (k.disk.lock_file ≡ stored (new_lock_metadata h app m.ticks))

claim_read_holding :
    (h : Host) (app : Text) (m k : Machine)
    → k.ticks ≡ m.ticks
    → k.holding ≡ true
    → Ensures (λ _ r. Claimed h app m r) (λ _. Unit) (claim_read h app k)
unfolding claim_read write_lock_metadata
claim_read_holding h app m k t o = elim (Bool-cases (blocks h k.ticks k.disk.lock_file)) [
  | inl e ↦ rw e (failure tt)
  | inr e ↦ rw e (
      Ensures-bind {mid = λ _ r. r.holding ≡ true} _ _ _
        (write-Ensures {good = λ r. r.holding ≡ true} _ k (λ _. o) (λ _. tt) (λ _. tt))
        λ _ r q.
          write-Ensures {good = Claimed h app m} _ r
            (λ _. (q, ap (λ n. stored (new_lock_metadata h app n)) t)) (λ _. tt) (λ _. tt))
]

claim_holding :
    (h : Host) (app : Text) (m k : Machine)
    → k.ticks ≡ m.ticks
    → k.holding ≡ true
    → Ensures (λ _ r. Claimed h app m r) (λ _. Unit) (claim_lock_file h app k)
unfolding claim_lock_file attempt
claim_holding h app m k t o =
    Ensures-bind _ _ _
      (write-Ensures {good = λ r. (r.ticks ≡ m.ticks) × (r.holding ≡ true)} _ k (λ _. (t, o))
        (λ _. tt) (λ _. tt))
      λ _ r (u, p). claim_read_holding h app m r u p

or_release_holding :
    {P : Machine → Type 0} {r : Result Error (Unit {0}) × Machine}
    → Ensures (λ _. P) (λ _. Unit) r
    → Ensures (λ _. P) (λ k. k.holding ≡ false) (or_release r)
unfolding release_os_lock
or_release_holding (success h) = success h
or_release_holding (failure h) = failure refl

-- For a process that does not hold the OS lock: whichever of the calls on the lock file and the OS
-- lock fail, and whether another process holds the lock or not, after success it holds the lock and the
-- lock file names it, and after an error it does not hold the lock.
pub acquire-holding :
    (h : Host) (app : Text) (m : Machine)
    → m.holding ≡ false
    → Ensures
        (λ _ k. (k.holding ≡ true) × (k.disk.lock_file ≡ stored (new_lock_metadata h app m.ticks)))
        (λ k. k.holding ≡ false)
        (acquire_file_lock h app m)
unfolding acquire_file_lock open_lock_file
acquire-holding h app m n =
    Ensures-bind _ _ _
      (write-Ensures {good = λ k. (k.holding ≡ false) × (k.ticks ≡ m.ticks)} _ m (λ _. (n, refl))
        (λ _. n) (λ _. n))
      λ _ k1 (n1, t1).
        Ensures-bind _ _ _ (os_lock_ticks k1 n1 t1)
          λ _ k2 (t2, o2). or_release_holding (claim_holding h app m k2 t2 o2)
