-- ===== src/Storage.antt =====
-- backend/app/storage/local.py: the audio files, in the order in which they were written.
use text.Mathlib.Text.{starts_with}
use Prim.Native.Char.{code}
use ai_badge.Prelude.{
  if◌then◌else◌, Bool-cases, ◌⊕◌, string_eq, nat_eq, ◌==◌, beq_refl, find, delete_where,
  find-append, ℕ, String, ◌≡◌, refl, sym, ap, ◌∙◌, ◌≢◌, inl, inr, Bool, true, false, ◌||◌, Option,
  none, some, List, [], ◌∷◌, ◌++◌, arith,
}
use ai_badge.Model.{
  session_status_eq, job_status_eq, artifact_status_eq, opt_eq, key_eq, Action, World, ok,
}

-- Whether the last character is a slash.
abbrev ends_with_slash : String → Bool
ends_with_slash String.[] = false
ends_with_slash (String.◌∷◌ c String.[]) = code c == b'/'
ends_with_slash (String.◌∷◌ c (String.◌∷◌ d s)) = ends_with_slash (String.◌∷◌ d s)

-- `os.path.join(base, key)`: an absolute key replaces the base, and no slash is doubled.
abbrev pub path_join : String → String → String
path_join base key =
    if starts_with key "/"
    then key
    else if base == "" || ends_with_slash base
    then base ⊕ key
    else base ⊕ "/" ⊕ key

-- `LocalStorage.__init__` chooses the folder: `base_path or settings.audio_storage_path`.
abbrev pub chosen_path : Option String → String → String
chosen_path none configured = configured
chosen_path (some path) configured = if path == "" then configured else path

-- `LocalStorage.save`: the file under a key, created or overwritten.
unfoldable pub save : String → String → List ℕ → Action Unit
save base key content w =
    let path = path_join base key in
    (ok tt, record w { files = delete_where (λ f. f.0 == path) w.files ++ (path, content) ∷ [] })

-- `LocalStorage.get`: none where the source raises FileNotFoundError.
abbrev contents : Option (String × List ℕ) → Option (List ℕ)
contents none = none
contents (some f) = some f.1

unfoldable pub stored : String → String → World → Option (List ℕ)
stored base key w = contents (find (λ f. f.0 == path_join base key) w.files)

-- `LocalStorage.delete`: nothing happens where there is no such file.
unfoldable pub delete : String → String → Action Unit
delete base key w =
    let path = path_join base key in
    (ok tt, record w { files = delete_where (λ f. f.0 == path) w.files })

find-delete_where : {A : Type 0} (p : A → Bool) (xs : List A) → find p (delete_where p xs) ≡ none
find-delete_where p [] = refl
find-delete_where p (x ∷ xs) = ground (arith, find-delete_where p xs)

-- A lookup that what is deleted does not meet finds what it did.
find-delete_others :
    {A : Type 0} (p q : A → Bool)
    → ((x : A) → p x ≡ true → q x ≡ false)
    → (xs : List A) → find q (delete_where p xs) ≡ find q xs
find-delete_others p q apart [] = refl
find-delete_others p q apart (x ∷ xs) = ground (arith, find-delete_others p q apart xs, apart x)

-- The last save under a key is what is read back.
pub stored-save :
    (base key : String) (content : List ℕ) (w : World)
    → stored base key (save base key content w).1 ≡ some content
unfolding stored save
stored-save base key content w =
    let here = λ (f : String × List ℕ). f.0 == path_join base key in
    let gone = find-delete_where here w.files in
    let all = find-append here (delete_where here w.files) ((path_join base key, content) ∷ []) in
    ground (arith, gone, all, beq_refl (path_join base key))

-- What was deleted is not read back.
pub stored-delete : (base key : String) (w : World) → stored base key (delete base key w).1 ≡ none
unfolding stored delete
stored-delete base key w = ap contents (find-delete_where (λ f. f.0 == path_join base key) w.files)

-- Two paths that differ are not told apart by a file of the one.
paths_apart :
    (a b : String) → a ≢ b → (f : String × List ℕ) → (f.0 == a) ≡ true → (f.0 == b) ≡ false
paths_apart a b differ f e = elim (Bool-cases (f.0 == b)) [
  | inl g ↦
      let fa : f.0 ≡ a = (string_eq.same_iff f.0 a).0 e in
      let fb : f.0 ≡ b = (string_eq.same_iff f.0 b).0 g in absurd (differ (sym fa ∙ fb))
  | inr g ↦ g
]

-- A save and a deletion leave the files of the other paths alone.
pub stored-save_elsewhere :
    (base key other : String) (content : List ℕ) (w : World)
    → path_join base key ≢ path_join base other
    → stored base other (save base key content w).1 ≡ stored base other w
unfolding stored save
stored-save_elsewhere base key other content w differ =
    let here = λ (f : String × List ℕ). f.0 == path_join base key in
    let there = λ (f : String × List ℕ). f.0 == path_join base other in
    let kept =
      find-delete_others here there (paths_apart (path_join base key) (path_join base other) differ)
        w.files in
    let all = find-append there (delete_where here w.files) ((path_join base key, content) ∷ []) in
    let new =
      paths_apart (path_join base key) (path_join base other) differ (path_join base key, content)
        (beq_refl (path_join base key)) in
    ap contents (all ∙ ground (arith, kept, new))

pub stored-delete_elsewhere :
    (base key other : String) (w : World)
    → path_join base key ≢ path_join base other
    → stored base other (delete base key w).1 ≡ stored base other w
unfolding stored delete
stored-delete_elsewhere base key other w differ = ap contents (
    find-delete_others (λ f. f.0 == path_join base key) (λ f. f.0 == path_join base other)
      (paths_apart (path_join base key) (path_join base other) differ) w.files)
