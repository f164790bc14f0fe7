-- ===== src/Builds/Chosen.antt =====
-- Which build `find_for_crash` of backend/app/repositories/build.py gives.
use diagnosis_system.Prelude.{
  ◌<◌, text_eq_refl, ◌≡◌, refl, Bool, true, ◌&&◌, Option, none, some, List, [], ◌∷◌, Text, arith,
  filter, IsIn, IsIn-filter, sorted_by, sorted_by-IsIn,
}
use diagnosis_system.Builds.{
  indexed, is_indexed, FirmwareBuild, is_usable_for, build_order, head_of, best, has_version,
  has_no_version, or_else, fallback, find_for_crash,
}

head_of-some :
    (bs : List FirmwareBuild) (b : FirmwareBuild)
    → IsIn b bs
    → (c : FirmwareBuild) × (head_of bs ≡ some c)
unfolding head_of
head_of-some [] b h = absurd h
head_of-some (x ∷ xs) b h = (x, refl)

best-some :
    (p : FirmwareBuild → Bool) (bs : List FirmwareBuild) (b : FirmwareBuild)
    → IsIn b bs
    → p b ≡ true
    → (c : FirmwareBuild) × (best p bs ≡ some c)
unfolding best
best-some p bs b i h =
    head_of-some (sorted_by build_order (filter p bs)) b
      (sorted_by-IsIn build_order b (filter p bs) (IsIn-filter p b bs h i))

-- what `find_for_crash` gives: a build of the firmware that is indexed and has symbols
abbrev IsUsable : Text → List FirmwareBuild → Option FirmwareBuild → Type 0
IsUsable firmware builds found =
    (b : FirmwareBuild) → found ≡ some b → IsIn b builds × (is_usable_for firmware b ≡ true)

-- what makes a build usable for a firmware
pub record Suits (firmware : Text) (b : FirmwareBuild) : Type 0 where
  pub version : b.firmware_version ≡ firmware
  pub status : b.status ≡ indexed
  pub symbols : 0 < b.symbol_count

Suits-is_usable_for :
    (firmware : Text) (b : FirmwareBuild) → Suits firmware b → is_usable_for firmware b ≡ true
unfolding is_usable_for is_indexed
Suits-is_usable_for firmware b h =
    rw (h.version, h.status) (ground (arith, text_eq_refl firmware, h.symbols))

or_else-some :
    (one other : Option FirmwareBuild) (b : FirmwareBuild)
    → other ≡ some b
    → (c : FirmwareBuild) × (or_else one other ≡ some c)
unfolding or_else
or_else-some none other b h = (b, h)
or_else-some (some x) other b h = (x, refl)

fallback-some :
    (firmware : Text) (builds : List FirmwareBuild) (a : FirmwareBuild)
    → IsIn a builds
    → is_usable_for firmware a ≡ true
    → (b : FirmwareBuild) × (fallback firmware builds ≡ some b)
unfolding fallback
fallback-some firmware builds a i usable =
    let (b, found) = best-some (is_usable_for firmware) builds a i usable in
    or_else-some (best (λ b. is_usable_for firmware b && has_no_version b.build_version) builds)
      (best (is_usable_for firmware) builds) b found

find_for_crash-some :
    (firmware : Text) (version : Option Text) (builds : List FirmwareBuild) (b : FirmwareBuild)
    → fallback firmware builds ≡ some b
    → (x : FirmwareBuild) × (find_for_crash firmware version builds ≡ some x)
unfolding find_for_crash
find_for_crash-some firmware none builds b h = (b, h)
find_for_crash-some firmware (some []) builds b h = (b, h)
find_for_crash-some firmware (some (c ∷ cs)) builds b h =
    or_else-some
      (best (λ x. is_usable_for firmware x && has_version (c ∷ cs) x.build_version) builds)
      (fallback firmware builds) b h

-- Where any build of the firmware version is indexed and has symbols, one is found, whatever build
-- version the crash reports.
pub find_for_crash_any :
    (firmware : Text) (version : Option Text) (builds : List FirmwareBuild) (a : FirmwareBuild)
    → IsIn a builds
    → Suits firmware a
    → (b : FirmwareBuild) × (find_for_crash firmware version builds ≡ some b)
find_for_crash_any firmware version builds a i suits =
    let (b, found) = fallback-some firmware builds a i (Suits-is_usable_for firmware a suits) in
    find_for_crash-some firmware version builds b found
