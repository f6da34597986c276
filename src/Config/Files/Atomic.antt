-- ===== src/Config/Files/Atomic.antt =====
-- Saving is atomic, and what was saved is loaded.
use ssc.Base.{
  Bool, true, false, [], ◌∷◌, ◌++◌, none, some, ◌≡◌, ◌≢◌, refl, ◌⊎◌, inl, inr, Bytes, codes,
  text_eq, text_eq_refl, text_eq_iff, Option-cases, Bool-cases, arith, length, length-append, ap,
}
use ssc.Config.{Config, normalize}
use ssc.Config.Normal.{normalize_idempotent}
use ssc.Config.Types.{ProfilesFile}
use ssc.Config.Files.{
  Codec, RoundTrips, Disk, WriteOutcome, written, failed, ok, tmp_of, replace, save, load,
  save_config, load_config, save_profiles, load_profiles,
}

tmp_of-ne_self : (path : Bytes) → text_eq (tmp_of path) path ≡ false
tmp_of-ne_self path = elim (Bool-cases (text_eq (tmp_of path) path)) [
  | inl same ↦ absurd (
      omega (
        arith,
        ap length ((text_eq_iff (tmp_of path) path).0 same),
        length-append {0} path (codes ".tmp"),
      ))
  | inr other ↦ other
]

self-ne_tmp_of : (path : Bytes) → text_eq path (tmp_of path) ≡ false
self-ne_tmp_of path = elim (Bool-cases (text_eq path (tmp_of path))) [
  | inl same ↦ absurd (
      omega (
        arith,
        ap length ((text_eq_iff path (tmp_of path)).0 same),
        length-append {0} path (codes ".tmp"),
      ))
  | inr other ↦ other
]

-- Neither a failed write nor a failed renaming touches the file itself.
replace-path :
    (disk : Disk) (path content : Bytes) (w : WriteOutcome) (renames : Bool)
    → (((replace disk path content w renames).1 ≡ none)
        × ((replace disk path content w renames).0 path ≡ some content))
      ⊎ (((replace disk path content w renames).1 ≢ none)
          × ((replace disk path content w renames).0 path ≡ disk path))
unfolding replace
replace-path disk path content written true =
    inl (refl, rw (self-ne_tmp_of path, text_eq_refl path, text_eq_refl (tmp_of path)))
replace-path disk path content written false = inr (cc, rw (self-ne_tmp_of path))
replace-path disk path content (failed partial) renames = inr (cc, rw (self-ne_tmp_of path))

-- Every other file is left alone, but for the temporary one.
replace-other :
    (disk : Disk) (path content : Bytes) (w : WriteOutcome) (renames : Bool) (q : Bytes)
    → text_eq q path ≡ false
    → text_eq q (tmp_of path) ≡ false
    → (replace disk path content w renames).0 q ≡ disk q
unfolding replace
replace-other disk path content written true q h k = rw (h, k)
replace-other disk path content written false q h k = rw k
replace-other disk path content (failed partial) renames q h k = rw k

module _ {A : Type 0} (codec : Codec A) where
  save_cases :
      (disk : Disk) (path : Bytes) (a : A) (w : WriteOutcome) (renames : Bool)
      → RoundTrips codec a
      → (((save codec disk path a w renames).1 ≡ none)
          × (load codec (save codec disk path a w renames).0 path ≡ ok a))
        ⊎ (((save codec disk path a w renames).1 ≢ none)
            × ((save codec disk path a w renames).0 path ≡ disk path))
  unfolding save load
  save_cases disk path a w renames rt = elim (Option-cases (codec.marshal a)) [
    | inl fails ↦ rw (fails, save) (inr (cc, refl))
    | inr (b, e) ↦
        rw (e, save)
          (elim (replace-path disk path (b ++ b'\n' ∷ []) w renames) [
            | inl (done, content) ↦ inl (done, rw (content, load) (rw (rt b e)))
            | inr (fails, same) ↦ inr (fails, same)
          ])
  ]

  save-other :
      (disk : Disk) (path : Bytes) (a : A) (w : WriteOutcome) (renames : Bool) (q : Bytes)
      → text_eq q path ≡ false
      → text_eq q (tmp_of path) ≡ false
      → (save codec disk path a w renames).0 q ≡ disk q
  unfolding save
  save-other disk path a w renames q h k = elim (Option-cases (codec.marshal a)) [
    | inl fails ↦ rw (fails, save)
    | inr (b, e) ↦ rw (e, save) (replace-other disk path (b ++ b'\n' ∷ []) w renames q h k)
  ]

-- If the encoder's text reads back as the value, then however the write and the renaming end, saving a configuration either succeeds, and the file
-- then loads as the normalised configuration, or fails and leaves the file's content as it was.
pub save_config_cases :
    (codec : Codec Config) (disk : Disk) (path : Bytes) (cfg : Config) (w : WriteOutcome)
    (renames : Bool)
    → RoundTrips codec (normalize cfg)
    → (((save_config codec disk path cfg w renames).1 ≡ none)
        × (load_config codec (save_config codec disk path cfg w renames).0 path
            ≡ ok (normalize cfg)))
      ⊎ (((save_config codec disk path cfg w renames).1 ≢ none)
          × ((save_config codec disk path cfg w renames).0 path ≡ disk path))
unfolding save_config load_config
save_config_cases codec disk path cfg w renames rt =
    elim (save_cases codec disk path (normalize cfg) w renames rt) [
      | inl (done, loads) ↦ inl (done, rw (loads, load_config) (rw (normalize_idempotent cfg)))
      | inr fails ↦ inr fails
    ]

-- If the encoder's text reads back as the value, then however the write and the renaming end,
-- saving the profiles either succeeds, and the file then loads as what was saved, or fails and leaves
-- the file's content as it was; a file other than it and its temporary file is untouched.
pub save_profiles_cases :
    (codec : Codec ProfilesFile) (disk : Disk) (path : Bytes) (pf : ProfilesFile) (w : WriteOutcome)
    (renames : Bool) (q : Bytes)
    → RoundTrips codec pf
    → ((((save_profiles codec disk path pf w renames).1 ≡ none)
          × (load_profiles codec (save_profiles codec disk path pf w renames).0 path ≡ ok pf))
        ⊎ (((save_profiles codec disk path pf w renames).1 ≢ none)
            × ((save_profiles codec disk path pf w renames).0 path ≡ disk path)))
      × ((text_eq q path ≡ true)
          ⊎ (text_eq q (tmp_of path) ≡ true)
          ⊎ ((save_profiles codec disk path pf w renames).0 q ≡ disk q))
unfolding save_profiles load_profiles
save_profiles_cases codec disk path pf w renames q rt =
    (save_cases codec disk path pf w renames rt, untouched)
  where
    untouched :
        (text_eq q path ≡ true)
        ⊎ (text_eq q (tmp_of path) ≡ true)
        ⊎ ((save codec disk path pf w renames).0 q ≡ disk q)
    untouched = elim (Bool-cases (text_eq q path)) [
      | inl same ↦ inl same
      | inr other ↦ elim (Bool-cases (text_eq q (tmp_of path))) [
        | inl tmp ↦ inr (inl tmp)
        | inr free ↦ inr (inr (save-other codec disk path pf w renames q other free))
      ]
    ]
