-- ===== src/StoreTests.antt =====
-- The theorems on rules.json applied to files kept in a function, with an encoding that keeps the
-- version alone.
use zfw_dark.Common.{
  ℕ, true, false, [], ◌∷◌, Option, none, some, ◌≡◌, ◌≢◌, refl, inl, inr, arith, All, Bool-cases,
  if◌then◌else◌,
}
use zfw_dark.Common.Files.{FileSystem, FileLaws}
use zfw_dark.Common.Int.{ℤ, pos}
use zfw_dark.Common.Result.{ok}
use zfw_dark.Common.Text.{Text, lit, ◌==◌, ==_iff, itoa, atoi}
use zfw_dark.Rules.Checks.{is_safe_rule_id}
use zfw_dark.Rules.Migrate.{migrate}
use zfw_dark.Rules.Model.{Rule, RuleSet}
use zfw_dark.Rules.Store.{Json, backup_path, fill_ids, stamp, write_atomic, save, load, upgrade}
use zfw_dark.Rules.Store.Atomic.{AllOrNothing, write_atomic-AllOrNothing}
use zfw_dark.Rules.Store.Ids.{failed, UsableId, Filled, fill_ids-UsableId}
use zfw_dark.Rules.Store.Reload.{load-save, load-older}

abbrev pub Files : Type 0
Files = Text → Option Text

abbrev pub put : Text → Option Text → Files → Files
put p o s q = if q == p then o else s q

abbrev pub memory : FileSystem
memory = record {
  State = Files;
  read_file = λ p s. s p;
  write_file = λ p b s. (put p (some b) s, true);
  rename = λ a p s. (put p (s a) (put a none s), true);
}

same-== : (p : Text) → (p == p) ≡ true
same-== p = (==_iff p p).1 refl

other-== : (q p : Text) → q ≢ p → (q == p) ≡ false
other-== q p h = elim (Bool-cases (q == p)) [ inl e ↦ absurd (h ((==_iff q p).0 e)) | inr e ↦ e ]

pub memory_laws : FileLaws memory
memory_laws = record {
  write_other = λ p q b s h. rw (other-== q p h) refl;
  write_done = λ p b s h. rw (same-== p) refl;
  rename_other = λ a p q s ha hp. rw (other-== q p hp, other-== q a ha) refl;
  rename_done = λ a p s h. rw (same-== p) refl;
  rename_failed = λ a p q s h. cc;
}

abbrev of_version : ℤ → RuleSet
of_version v = record {
  version = v;
  lan = [];
  host_ip = [];
  default_policy = [];
  v6_drop = some [];
  rules = [];
}

abbrev read_version : Option ℤ → Option RuleSet
read_version none = none
read_version (some v) = some (of_version v)

abbrev version_json : Json
version_json = record { encode = λ rs. some (itoa rs.version); decode = λ b. read_version (atoi b) }

abbrev pub no_files : Files
no_files p = none

abbrev no_random : ℕ → Option Text
no_random n = none

abbrev rules_path : Text
rules_path = b'r' ∷ []

write_atomic-AllOrNothing_example :
    AllOrNothing memory rules_path none
      (some (b'3' ∷ []))
      (write_atomic memory version_json rules_path (of_version (pos 3)) no_files)
unfolding itoa
write_atomic-AllOrNothing_example =
    write_atomic-AllOrNothing memory memory_laws version_json rules_path (of_version (pos 3))
      no_files

saved-decodes :
    (b : Text)
    → some (itoa (pos 3)) ≡ some b
    → version_json.decode b ≡ some (stamp no_random (of_version (pos 0)))
unfolding itoa atoi stamp fill_ids
saved-decodes b e = let digit : b ≡ (b'3' ∷ []) = cc in rw digit refl

saved-encoding :
    (b : Text)
    → version_json.encode (stamp no_random (of_version (pos 0))) ≡ some b
    → version_json.decode b ≡ some (stamp no_random (of_version (pos 0)))
unfolding stamp
saved-encoding b e = saved-decodes b e

saved : (save memory version_json no_random rules_path (of_version (pos 0)) no_files).1 ≡ ok tt
unfolding save write_atomic stamp
saved = refl

load-save_example :
    load memory version_json rules_path
      (λ s. s)
      (save memory version_json no_random rules_path (of_version (pos 0)) no_files).0
    ≡ (
      (save memory version_json no_random rules_path (of_version (pos 0)) no_files).0,
      ok (stamp no_random (of_version (pos 0))),
    )
load-save_example =
    load-save memory memory_laws version_json no_random rules_path (of_version (pos 0)) (λ s. s)
      no_files saved-encoding saved

abbrev old_files : Files
old_files = put rules_path (some (b'1' ∷ [])) no_files

old-loaded : (load memory version_json rules_path (λ s. s) old_files).1 ≡ ok (of_version (pos 3))
unfolding load upgrade migrate ◌==◌ atoi itoa write_atomic lit
old-loaded = refl

old-decodes : version_json.decode (b'1' ∷ []) ≡ some (of_version (pos 1))
unfolding atoi
old-decodes = refl

old-found : old_files rules_path ≡ some (b'1' ∷ [])
unfolding ◌==◌
old-found = refl

load-older_example :
    (of_version (pos 3) ≡ of_version (pos 3))
    × ((load memory version_json rules_path (λ s. s) old_files).0 (backup_path rules_path (pos 1))
        ≡ some (b'1' ∷ []))
    × ((load memory version_json rules_path (λ s. s) old_files).0 rules_path ≡ some (itoa (pos 3)))
load-older_example =
    load-older memory memory_laws version_json rules_path (b'1' ∷ []) (of_version (pos 1))
      (of_version (pos 3)) old_files old-found old-decodes (omega arith, omega arith) old-loaded

abbrev unnamed : Rule
unnamed = record {
  id = [];
  order = pos 10;
  enabled = true;
  name = lit "dns";
  action = lit "allow";
  source = record { type = lit "any"; value = [] };
  ports = record { type = lit "all"; list = []; from = pos 0; to = pos 0 };
  protocol = lit "both";
  zone = lit "host";
  notes = [];
  schedule = none;
  log = false;
  rate_limit = none;
  direction = [];
  container_id = [];
}

empty_id : is_safe_rule_id [] ≡ true
unfolding is_safe_rule_id
empty_id = refl

fill_ids-UsableId_example :
    Filled (unnamed ∷ unnamed ∷ []) (fill_ids no_random 0 (unnamed ∷ unnamed ∷ []))
    × All (λ r. UsableId r.id) (fill_ids no_random 0 (unnamed ∷ unnamed ∷ []))
fill_ids-UsableId_example =
    fill_ids-UsableId no_random (λ k. failed) 0 (unnamed ∷ unnamed ∷ []) (empty_id, (empty_id, tt))
