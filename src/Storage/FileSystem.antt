-- ===== src/Storage/FileSystem.antt =====
-- What the storage code takes from the SPIFFS library: its calls, and the documented effect of each
-- on the contents of the files. A failed call changes no file.
use canshift_firmware.Prelude.{
  ℕ, ◌≡◌, ◌≢◌, Bool, true, false, Option, none, some, List, [], ◌++◌, take,
}

pub record Spiffs : Type 1 where
  pub Fs : Type 0
  pub content : Fs → List ℕ → Option (List ℕ)
  pub exists : Fs → List ℕ → Bool
  pub remove : Fs → List ℕ → Fs × Bool
  pub rename : Fs → List ℕ → List ℕ → Fs × Bool
  pub mkdir : Fs → List ℕ → Fs × Bool
  -- `open` for writing, which empties the file; `none` when it fails.
  pub open_write : Fs → List ℕ → Option Fs
  -- `File::write`, with the number of bytes it took.
  pub append : Fs → List ℕ → List ℕ → Fs × ℕ
  pub remove_done :
      (fs : Fs) (p : List ℕ) → (remove fs p).1 ≡ true → content (remove fs p).0 p ≡ none
  pub remove_failed :
      (fs : Fs) (p : List ℕ) → (remove fs p).1 ≡ false → content (remove fs p).0 p ≡ content fs p
  pub remove_other : (fs : Fs) (p q : List ℕ) → p ≢ q → content (remove fs p).0 q ≡ content fs q
  pub rename_done :
      (fs : Fs) (p q : List ℕ)
      → (rename fs p q).1 ≡ true
      → content (rename fs p q).0 q ≡ content fs p
  pub rename_gone :
      (fs : Fs) (p q : List ℕ)
      → p ≢ q
      → (rename fs p q).1 ≡ true
      → content (rename fs p q).0 p ≡ none
  pub rename_failed :
      (fs : Fs) (p q r : List ℕ)
      → (rename fs p q).1 ≡ false
      → content (rename fs p q).0 r ≡ content fs r
  pub rename_other :
      (fs : Fs) (p q r : List ℕ) → p ≢ r → q ≢ r → content (rename fs p q).0 r ≡ content fs r
  pub mkdir_content : (fs : Fs) (p q : List ℕ) → content (mkdir fs p).0 q ≡ content fs q
  pub open_empty : (fs fs' : Fs) (p : List ℕ) → open_write fs p ≡ some fs' → content fs' p ≡ some []
  pub open_other :
      (fs fs' : Fs) (p q : List ℕ)
      → open_write fs p ≡ some fs'
      → p ≢ q
      → content fs' q ≡ content fs q
  pub append_taken :
      (fs : Fs) (p bytes old : List ℕ)
      → content fs p ≡ some old
      → content (append fs p bytes).0 p ≡ some (old ++ take (append fs p bytes).1 bytes)
  pub append_other :
      (fs : Fs) (p q bytes : List ℕ) → p ≢ q → content (append fs p bytes).0 q ≡ content fs q
