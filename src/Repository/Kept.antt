-- ===== src/Repository/Kept.antt =====
-- Results that were written are read again.
use cpsc_of_testbed.Base.{
  [], ◌∷◌, ◌++◌, Bool, true, false, not, ◌||◌, ◌≡◌, refl, sym, ap, ◌∙◌, subst, inl, inr, some, ok,
  raise, os_error, >>=-eq-ok, ok_injective, fold_result, filter, init, All, ◌==◌, Bool-cases, arith,
  nat_eq,
}
use cpsc_of_testbed.Base.Dict.{
  Dict, lookup, insert, has_key, keys, IsUnique, lookup-insert_ne, lookup-insert_self,
}
use cpsc_of_testbed.Base.Dict.Groups.{insert_new, IsUnique-middle}
use mathlib.Core.List.{append_assoc, append-nil}
use cpsc_of_testbed.Base.Text.{Text, text_eq, text_eqb_iff}
use cpsc_of_testbed.Base.Text.Parts.{Lacks, split_whole}
use cpsc_of_testbed.Repository.{
  ResultsRepository, write_file, write_trial_results, read_file, read_trial_results,
  build_output_path,
}
use cpsc_of_testbed.Repository.Files.{
  FilePath, path_eq, path_eqb_iff, FileSystem, is_name, parts, join, is_folder, make_folders,
  newlines, write_text, read_text,
}

-- The name of a file: no slash in it, and not the folder itself.
abbrev pub IsFileName : Text → Type 0
IsFileName s = Lacks b'/' s × (is_name s ≡ true)

-- Its path is that of the folder, and the name.
join-IsFileName : (p : FilePath) (s : Text) → IsFileName s → join p s ≡ p ++ s ∷ []
unfolding join parts
join-IsFileName p [] h = absurd (ne h.1)
  where
    ne : false ≡ true → ⊥
    ne e = cc
join-IsFileName p (c ∷ s) h =
    rw h.0.0 (ap (λ ws. p ++ filter is_name ws) (split_whole b'/' (c ∷ s) h.0) ∙ (rw h.1 refl))

cons_injective : {s t : Text} → s ∷ [] ≡ t ∷ [] → s ≡ t
cons_injective h = cc

tail_injective : {s t : Text} {p q : FilePath} → s ∷ p ≡ t ∷ q → p ≡ q
tail_injective h = cc

snoc_injective : (p : FilePath) (s t : Text) → p ++ s ∷ [] ≡ p ++ t ∷ [] → s ≡ t
snoc_injective [] s t h = cons_injective h
snoc_injective (u ∷ p) s t h = snoc_injective p s t (tail_injective h)

-- Files of other names have other paths.
join_differ :
    (p : FilePath) (s t : Text)
    → IsFileName s
    → IsFileName t
    → (s == t) ≡ false
    → (join p s == join p t) ≡ false
join_differ p s t hs ht n = elim (Bool-cases (join p s == join p t)) [
  | inr m ↦ m
  | inl e ↦
      let same = snoc_injective p s t (
        sym (join-IsFileName p s hs)
        ∙ (path_eqb_iff (join p s) (join p t)).0 e
        ∙ join-IsFileName p t ht) in
      absurd (both ((text_eqb_iff s t).1 same) n)
]
  where
    both : {b : Bool} → b ≡ true → b ≡ false → ⊥
    both h k = cc

-- The text of a file that was written.
write_text-inserts :
    (fs : FileSystem) (p : FilePath) (s : Text) (fs' : FileSystem)
    → write_text fs p s ≡ ok fs'
    → fs'.texts ≡ insert p s fs.texts
unfolding write_text
write_text-inserts fs p s fs' h =
    elim (Bool-cases (is_folder fs p || not (is_folder fs (init p)))) [
      | inl e ↦ absurd (refused (rw e at h))
      | inr n ↦ ap (λ (f : FileSystem). f.texts) (sym (ok_injective (rw n at h)))
    ]
  where
    refused : raise os_error ≡ ok fs' → ⊥
    refused e = cc

-- A file of another name stays as it is, whatever is written.
others_stay :
    (p : FilePath) (s : Text) (es : Dict Text Text) (fs fs' : FileSystem)
    → IsFileName s
    → All (λ (e : Text × Text). IsFileName e.0) es
    → has_key s es ≡ false
    → fold_result (write_file p) fs es ≡ ok fs'
    → lookup (join p s) fs'.texts ≡ lookup (join p s) fs.texts
unfolding fold_result write_file
others_stay p s [] fs fs' hs all new h =
    ap (λ (f : FileSystem). lookup (join p s) f.texts) (sym (ok_injective h))
others_stay p s ((t, text) ∷ es) fs fs' hs all new h =
    let (middle, first, rest) =
      >>=-eq-ok (write_text fs (join p t) text) (λ m. fold_result (write_file p) m es) h in
    let other : (t == s) ≡ false = ground arith in
    let later : has_key s es ≡ false = ground arith in
    others_stay p s es middle fs' hs all.1 later rest
    ∙ ap (lookup (join p s)) (write_text-inserts fs (join p t) text middle first)
    ∙ lookup-insert_ne (join p t) (join p s) text fs.texts (join_differ p t s all.0 hs other)

all_written :
    (p : FilePath) (es : Dict Text Text) (fs fs' : FileSystem)
    → All (λ (e : Text × Text). IsFileName e.0) es
    → IsUnique es
    → fold_result (write_file p) fs es ≡ ok fs'
    → All (λ (e : Text × Text). lookup (join p e.0) fs'.texts ≡ some e.1) es
unfolding fold_result write_file
all_written p [] fs fs' all u h = tt
all_written p ((s, text) ∷ es) fs fs' all u h =
    let (middle, first, rest) =
      >>=-eq-ok (write_text fs (join p s) text) (λ m. fold_result (write_file p) m es) h in
    (
      others_stay p s es middle fs' all.0 all.1 u.0 rest
          ∙ ap (lookup (join p s)) (write_text-inserts fs (join p s) text middle first)
          ∙ lookup-insert_self (join p s) text fs.texts,
      all_written p es middle fs' all.1 u.1 rest,
    )

-- What is read of results: the names, with the texts whose newlines are translated.
abbrev pub as_read : Dict Text Text → Dict Text Text
as_read [] = []
as_read ((s, text) ∷ es) = (s, newlines text) ∷ as_read es

has_key-as_read : (s : Text) (es : Dict Text Text) → has_key s (as_read es) ≡ has_key s es
has_key-as_read s [] = refl
has_key-as_read s ((t, text) ∷ es) = ground (arith, has_key-as_read s es)

as_read-IsUnique : (es : Dict Text Text) → IsUnique es → IsUnique (as_read es)
as_read-IsUnique [] u = tt
as_read-IsUnique ((s, text) ∷ es) u = (has_key-as_read s es ∙ u.0, as_read-IsUnique es u.1)

all_read :
    (fs : FileSystem) (p : FilePath) (before es : Dict Text Text)
    → All (λ (e : Text × Text). lookup (join p e.0) fs.texts ≡ some e.1) es
    → IsUnique (before ++ as_read es)
    → fold_result (read_file fs p) before (keys es) ≡ ok (before ++ as_read es)
unfolding fold_result read_file read_text
all_read fs p before [] h u = ap ok (sym (append-nil before))
all_read fs p before ((s, text) ∷ es) h u = rw h.0 (
    ap (λ d. fold_result (read_file fs p) d (keys es))
      (insert_new s (newlines text) before
        (IsUnique-middle s (newlines text) before (as_read es) u))
    ∙ all_read fs p (before ++ (s, newlines text) ∷ []) es h.1
        (subst IsUnique (sym (append_assoc before ((s, newlines text) ∷ []) (as_read es))) u)
    ∙ ap ok (append_assoc before ((s, newlines text) ∷ []) (as_read es)))

-- Text without a carriage return is read as it is.
newlines-Lacks : (s : Text) → Lacks b'\r' s → newlines s ≡ s
unfolding newlines
newlines-Lacks [] h = refl
newlines-Lacks (c ∷ []) h = rw h.0 refl
newlines-Lacks (c ∷ d ∷ s) h = rw h.0 (ap (λ t. c ∷ t) (newlines-Lacks (d ∷ s) h.1))

as_read-same :
    (es : Dict Text Text) → All (λ (e : Text × Text). Lacks b'\r' e.1) es → as_read es ≡ es
as_read-same [] h = refl
as_read-same ((s, text) ∷ es) h =
    ap (λ t. (s, t) ∷ as_read es) (newlines-Lacks text h.0)
    ∙ ap (λ ds. (s, text) ∷ ds) (as_read-same es h.1)

-- Results that were written under names of files, without a slash and none twice, are read again,
-- whatever was in the store before: with their newlines translated, and as they are where no text has
-- a carriage return.
pub read_trial_results-write_trial_results :
    (r : ResultsRepository) (schema_variables results : Dict Text Text) (overwrite : Bool)
    (fs fs' : FileSystem)
    → All (λ (e : Text × Text). IsFileName e.0) results
    → IsUnique results
    → write_trial_results r schema_variables results overwrite fs ≡ ok fs'
    → (read_trial_results r schema_variables (keys results) fs' ≡ ok (as_read results))
      × (All (λ (e : Text × Text). Lacks b'\r' e.1) results
          → read_trial_results r schema_variables (keys results) fs' ≡ ok results)
unfolding write_trial_results read_trial_results
read_trial_results-write_trial_results r vars results overwrite fs fs' names unique h =
    let (p, found, h1) = >>=-eq-ok (build_output_path r vars) _ h in
    let (made, created, h2) = >>=-eq-ok (make_folders overwrite fs p) _ h1 in
    let read =
      all_read fs' p [] results (all_written p results made fs' names unique h2)
        (as_read-IsUnique results unique) in
    (rw found read, λ plain. rw found (read ∙ ap ok (as_read-same results plain)))
