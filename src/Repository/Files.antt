-- ===== src/Repository/Files.antt =====
-- What rest_client/nw_control/results_repository.py uses of `pathlib`: absolute paths, folders, and
-- files of text. Every exception of the file system is an OSError.
use cpsc_of_testbed.Base.{
  List, [], ◌∷◌, ◌++◌, Bool, true, false, not, ◌&&◌, ◌||◌, Result, ok, raise, os_error, or_raise,
  ◌>>=◌, filter, contains, add_all, init, Comparable, ◌==◌, if◌then◌else◌, ◌↔◌, ◌≡◌, arith, nat_eq,
}
use cpsc_of_testbed.Base.Dict.{Dict, lookup, insert, has_key}
use cpsc_of_testbed.Base.Text.{Text, codes, split, text_eqb, text_eqb_iff, text_eq}

-- The names from the root on.
abbrev pub FilePath : Type 0
FilePath = List Text

abbrev pub path_eqb : FilePath → FilePath → Bool
path_eqb [] [] = true
path_eqb [] (t ∷ q) = false
path_eqb (s ∷ p) [] = false
path_eqb (s ∷ p) (t ∷ q) = text_eqb s t && path_eqb p q

pub path_eqb_iff : (p q : FilePath) → (path_eqb p q ≡ true) ↔ (p ≡ q)
path_eqb_iff [] [] = ground arith
path_eqb_iff [] (t ∷ q) = (λ h. cc, λ h. cc)
path_eqb_iff (s ∷ p) [] = (λ h. cc, λ h. cc)
path_eqb_iff (s ∷ p) (t ∷ q) = ground (arith, text_eqb_iff s t, path_eqb_iff p q)

instance abbrev pub path_eq : Comparable FilePath
path_eq = record { equals = path_eqb; equals_iff = path_eqb_iff }

-- Empty names and "." are left out of a path.
abbrev pub is_name : Text → Bool
is_name s = not (s == []) && not (s == codes ".")

unfoldable pub parts : Text → List Text
parts s = filter is_name (split b'/' s)

-- `p / path.Path(s)` and `p.joinpath(s)`: a path from the root replaces the first.
unfoldable pub join : FilePath → Text → FilePath
unfolding parts
join p [] = p
join p (c ∷ s) = if c == b'/' then parts (c ∷ s) else p ++ parts (c ∷ s)

pub record FileSystem : Type 0 where
  pub folders : List FilePath
  pub texts : Dict FilePath Text

unfoldable pub is_folder : FileSystem → FilePath → Bool
is_folder fs p = (p == []) || contains p fs.folders

unfoldable pub exists : FileSystem → FilePath → Bool
unfolding is_folder
exists fs p = is_folder fs p || has_key p fs.texts

-- The path, after those of the folders that it stands in.
unfoldable pub prefixes : FilePath → FilePath → List FilePath
prefixes done [] = []
prefixes done (s ∷ p) = (done ++ s ∷ []) ∷ prefixes (done ++ s ∷ []) p

unfoldable pub some_is_file : FileSystem → List FilePath → Bool
some_is_file fs [] = false
some_is_file fs (p ∷ ps) = has_key p fs.texts || some_is_file fs ps

-- `p.mkdir(parents=True, exist_ok=exist_ok)`
unfoldable pub make_folders : Bool → FileSystem → FilePath → Result FileSystem
unfolding is_folder prefixes some_is_file
make_folders exist_ok fs p =
    if is_folder fs p
    then (if exist_ok then ok fs else raise os_error)
    else if some_is_file fs (prefixes [] p)
    then raise os_error
    else ok (record fs { folders = add_all fs.folders (prefixes [] p) })

-- `p.write_text(s)`
unfoldable pub write_text : FileSystem → FilePath → Text → Result FileSystem
unfolding is_folder
write_text fs p s =
    if is_folder fs p || not (is_folder fs (init p))
    then raise os_error
    else ok (record fs { texts = insert p s fs.texts })

-- What text is read as: "\r" and "\r\n" are read as "\n".
unfoldable pub newlines : Text → Text
newlines [] = []
newlines (c ∷ []) = (if c == b'\r' then b'\n' else c) ∷ []
newlines (c ∷ d ∷ s) =
    let rest = newlines (d ∷ s) in
    let after = newlines s in
    if c == b'\r' then (if d == b'\n' then b'\n' ∷ after else b'\n' ∷ rest) else c ∷ rest

-- `p.read_text()`
unfoldable pub read_text : FileSystem → FilePath → Result Text
unfolding newlines
read_text fs p = or_raise (lookup p fs.texts) os_error >>= λ s. ok (newlines s)
