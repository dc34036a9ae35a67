-- ===== src/Upload/Paths.antt =====
-- Which files a host may write: `isPathSafe` of src/hal/usb/usb_dispatch_validation.cpp.
use canshift_firmware.Prelude.{
  ℕ, ◌≡◌, ◌≢◌, ◌<◌, ◌⊎◌, inl, inr, refl, ap, sym, ◌∙◌, Bool, true, false, not, ◌&&◌, ◌||◌, Option,
  none, some, List, [], ◌∷◌, if◌then◌else◌, ltb, leb, ◌==◌, length, arith, Bool-cases,
}
use canshift_firmware.Storage.{cfg_max_path_len}
use canshift_firmware.Upload.{str_eq, signals_path, dashboard_path}

-- `strncmp(path, prefix, strlen(prefix)) == 0`
abbrev pub starts_with : List ℕ → List ℕ → Bool
starts_with [] path = true
starts_with (a ∷ rest) [] = false
starts_with (a ∷ rest) (c ∷ cs) = (a == c) && starts_with rest cs

-- `strstr(path, needle)` finds it.
abbrev pub contains : List ℕ → List ℕ → Bool
contains needle [] = starts_with needle []
contains needle (c ∷ cs) = starts_with needle (c ∷ cs) || contains needle cs

abbrev pub assets_prefix : List ℕ
assets_prefix = 47 ∷ 97 ∷ 115 ∷ 115 ∷ 101 ∷ 116 ∷ 115 ∷ 47 ∷ []

abbrev pub fonts_prefix : List ℕ
fonts_prefix = 47 ∷ 102 ∷ 111 ∷ 110 ∷ 116 ∷ 115 ∷ 47 ∷ []

unfoldable pub is_allowed_put_target : List ℕ → Bool
is_allowed_put_target path =
    (ltb (length assets_prefix) (length path) && starts_with assets_prefix path)
    || ((ltb (length fonts_prefix) (length path) && starts_with fonts_prefix path)
        || str_eq path signals_path)

-- The loop over the characters: none is a control character.
unfoldable pub printable : List ℕ → Bool
printable [] = true
printable (c ∷ cs) = if leb c 31 || (c == 127) then false else printable cs

unfoldable pub is_path_safe : Option (List ℕ) → Bool
unfolding is_allowed_put_target printable
is_path_safe none = false
is_path_safe (some path) =
    if (length path == 0) || not (ltb (length path) cfg_max_path_len)
    then false
    else if not (printable path)
    then false
    else if contains (47 ∷ 47 ∷ []) path
    then false
    else if contains (46 ∷ 46 ∷ []) path
    then false
    else is_allowed_put_target path

pub str_eq_sound : (p q : List ℕ) → str_eq p q ≡ true → p ≡ q
str_eq_sound [] [] e = refl
str_eq_sound [] (b ∷ bs) e = ground arith
str_eq_sound (a ∷ rest) [] e = ground arith
str_eq_sound (a ∷ rest) (b ∷ bs) e = ground (arith, str_eq_sound rest bs)

dashboard_refused : is_path_safe (some dashboard_path) ≡ false
unfolding is_path_safe is_allowed_put_target printable
dashboard_refused = refl

true_ne : true ≢ false
true_ne e = ground arith

not_dashboard :
    (path : List ℕ) → is_path_safe (some path) ≡ true → str_eq path dashboard_path ≡ false
not_dashboard path e = elim (Bool-cases (str_eq path dashboard_path)) [
  | inl d ↦ absurd (
      true_ne (
        sym e
        ∙ (ap (λ p. is_path_safe (some p)) (str_eq_sound path dashboard_path d)
            ∙ dashboard_refused)))
  | inr d ↦ d
]

guards_passed :
    (size clean slashes dots allowed : Bool)
    → (if size
        then false
        else if not clean
        then false
        else if slashes
        then false
        else if dots
        then false
        else allowed)
      ≡ true
    → (size ≡ false) × (dots ≡ false) × (allowed ≡ true)
guards_passed size clean slashes dots allowed e = ground arith

fits : (n : ℕ) → ((n == 0) || not (ltb n cfg_max_path_len)) ≡ false → n < cfg_max_path_len
fits n e = ground arith

one_allowed_rest : (longer q r : Bool) → ((longer && q) || r) ≡ true → (q ≡ true) ⊎ (r ≡ true)
one_allowed_rest longer true r e = inl refl
one_allowed_rest true false r e = inr e
one_allowed_rest false false r e = inr e

one_allowed :
    (long p longer q r : Bool)
    → ((long && p) || ((longer && q) || r)) ≡ true
    → (p ≡ true) ⊎ ((q ≡ true) ⊎ (r ≡ true))
one_allowed long true longer q r e = inl refl
one_allowed true false longer q r e = inr (one_allowed_rest longer q r e)
one_allowed false false longer q r e = inr (one_allowed_rest longer q r e)

-- A path that is accepted is short enough for its suffixes, climbs to no parent directory, and lies
-- under the assets, under the fonts, or is the signals file; so it is never the dashboard.
pub is_path_safe_lem :
    (path : List ℕ)
    → is_path_safe (some path) ≡ true
    → (length path < cfg_max_path_len)
      × (contains (46 ∷ 46 ∷ []) path ≡ false)
      × ((starts_with assets_prefix path ≡ true)
          ⊎ ((starts_with fonts_prefix path ≡ true) ⊎ (str_eq path signals_path ≡ true)))
      × (str_eq path dashboard_path ≡ false)
unfolding is_path_safe is_allowed_put_target
is_path_safe_lem path e =
    let passed =
      guards_passed ((length path == 0) || not (ltb (length path) cfg_max_path_len))
        (printable path) (contains (47 ∷ 47 ∷ []) path) (contains (46 ∷ 46 ∷ []) path)
        (is_allowed_put_target path) e in
    (
      fits (length path) passed.0,
      passed.1,
      one_allowed (ltb (length assets_prefix) (length path)) (starts_with assets_prefix path)
          (ltb (length fonts_prefix) (length path)) (starts_with fonts_prefix path)
          (str_eq path signals_path) passed.2,
      not_dashboard path e,
    )
