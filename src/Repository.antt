-- ===== src/Repository.antt =====
-- `ResultsRepository` of rest_client/nw_control/results_repository.py: a store of trials in folders that
-- a schema names. How json and pickle write and read is a parameter.
pub mod Files
pub mod Kept
pub mod Sets
pub mod Merged
mod Tests
use cpsc_of_testbed.Base.{
  ℕ, List, [], ◌∷◌, ◌++◌, map, Bool, true, false, not, ◌&&◌, ◌||◌, Option, none, some, Result, ok,
  raise, value_error, key_error, or_raise, ◌>>=◌, raise_if, ◌>>◌, fold_result, map_result, filter,
  contains, add_all, length, eqb, String, string_eq, Comparable, ◌==◌, if◌then◌else◌, ◌↔◌, ◌≡◌,
  arith, nat_eq,
}
use cpsc_of_testbed.Base.Dict.{Dict, lookup, insert}
use cpsc_of_testbed.Base.Text.{Text, codes, split, text_eq}
use cpsc_of_testbed.Trials.Trial.{Trial, Value, text, number, object, get_parameter}
use cpsc_of_testbed.Trials.Provider.{Provider, add_trial, remove_all_trials_that_match}
use cpsc_of_testbed.Repository.Files.{
  FilePath, path_eq, FileSystem, join, is_folder, exists, make_folders, write_text, read_text,
}

pub record ResultsRepository : Type 0 where
  pub base_path : FilePath
  pub schema : Text
  pub repository_name : Text

-- The name and the schema of a repository, as `json` writes and reads them.
pub record MetadataFormat : Type 0 where
  pub dumps : Text × Text → Text
  pub loads : Text → Result (Text × Text)

abbrev pub metadata_file : Text
metadata_file = codes ".results_repo"

-- The file is looked for among those of the folder.
unfoldable pub repository_exists : FileSystem → FilePath → Bool
repository_exists fs base_path =
    is_folder fs base_path && exists fs (base_path ++ metadata_file ∷ [])

module _ (F : MetadataFormat) where
  unfoldable pub read_repository_metadata : FileSystem → FilePath → Result (Text × Text)
  read_repository_metadata fs base_path = read_text fs (base_path ++ metadata_file ∷ []) >>= F.loads

  -- The repository, and the files afterwards.
  unfoldable pub create_repository :
      FileSystem → FilePath → Text → Text → Result (ResultsRepository × FileSystem)
  unfolding repository_exists read_repository_metadata
  create_repository fs base_path schema repository_name =
      let repository : ResultsRepository = record {
        base_path = base_path;
        schema = schema;
        repository_name = repository_name;
      } in
      elim (repository_exists fs base_path) [
        | true ↦ read_repository_metadata fs base_path >>= λ metadata.
            raise_if (not (metadata.0 == repository_name) || not (metadata.1 == schema)) value_error
            >> ok (repository, fs)
        | false ↦ make_folders false fs base_path >>= λ made.
            write_text made (base_path ++ metadata_file ∷ []) (F.dumps (repository_name, schema))
            >>= λ written. ok (repository, written)
      ]

-- The labels between the slashes of the schema.
abbrev pub labels : Text → List Text
labels schema = filter (λ (l : Text). not (l == [])) (split b'/' schema)

-- `reduce(lambda acc, v: acc / path.Path(v), segments, base_path)`
unfoldable pub join_all : FilePath → List Text → FilePath
join_all path [] = path
join_all path (s ∷ segments) = join_all (join path s) segments

unfoldable pub build_output_path : ResultsRepository → Dict Text Text → Result FilePath
unfolding join_all
build_output_path r schema_variables = do
  segments ←
      map_result (λ label. or_raise (lookup label schema_variables) key_error) (labels r.schema)
  ok (join_all r.base_path segments)

unfoldable pub write_file : FilePath → FileSystem → Text × Text → Result FileSystem
write_file path fs e = write_text fs (join path e.0) e.1

unfoldable pub write_trial_results :
    ResultsRepository → Dict Text Text → Dict Text Text → Bool → FileSystem → Result FileSystem
unfolding build_output_path write_file
write_trial_results r schema_variables results overwrite fs = do
  output_path ← build_output_path r schema_variables
  made ← make_folders overwrite fs output_path
  fold_result (write_file output_path) made results

unfoldable pub read_file : FileSystem → FilePath → Dict Text Text → Text → Result (Dict Text Text)
read_file fs path output_files name = do
  file_text ← read_text fs (join path name)
  ok (insert name file_text output_files)

unfoldable pub read_trial_results :
    ResultsRepository → Dict Text Text → List Text → FileSystem → Result (Dict Text Text)
unfolding build_output_path read_file
read_trial_results r schema_variables file_names fs = do
  output_path ← build_output_path r schema_variables
  fold_result (read_file fs output_path) [] file_names

abbrev pub value_eqb : Value → Value → Bool
value_eqb (text a) (text b) = a == b
value_eqb (number m) (number n) = eqb m n
value_eqb (object m) (object n) = eqb m n
value_eqb v w = false

pub value_eqb_iff : (v w : Value) → (value_eqb v w ≡ true) ↔ (v ≡ w)
value_eqb_iff (text a) (text b) = ground (arith, string_eq.equals_iff a b)
value_eqb_iff (text a) (number n) = (λ h. cc, λ h. cc)
value_eqb_iff (text a) (object n) = (λ h. cc, λ h. cc)
value_eqb_iff (number m) (text b) = (λ h. cc, λ h. cc)
value_eqb_iff (number m) (number n) = ground (arith, nat_eq.equals_iff m n)
value_eqb_iff (number m) (object n) = (λ h. cc, λ h. cc)
value_eqb_iff (object m) (text b) = (λ h. cc, λ h. cc)
value_eqb_iff (object m) (number n) = (λ h. cc, λ h. cc)
value_eqb_iff (object m) (object n) = ground (arith, nat_eq.equals_iff m n)

instance abbrev pub value_eq : Comparable Value
value_eq = record { equals = value_eqb; equals_iff = value_eqb_iff }

abbrev pub provider_file : Text
provider_file = codes "trial-provider.p"

-- Objects that are trials: two are the same object or not, whatever their parameters.
module _ {T : Type 0} ⦃e : Comparable T⦄ (trial_of : T → Trial) where
  -- `pickle.dump` and `pickle.load` of a provider.
  pub record PickleFormat : Type 0 where
    pub dump : Provider T → Text
    pub load : Text → Result (Provider T)

  abbrev pub parameter_of : String → T → Result Value
  parameter_of name t = get_parameter (trial_of t) name

  -- `{t.get_parameter(name) for t in p} & {t.get_parameter(name) for t in q}`
  unfoldable pub intersection : String → Provider T → Provider T → Result (List Value)
  intersection name p q = do
    us ← map_result (parameter_of name) p.trials
    vs ← map_result (parameter_of name) q.trials
    ok (filter (λ v. contains v vs) (add_all [] us))

  -- Trials without a name do not get here.
  abbrev pub is_named : Value → T → Bool
  is_named name t = elim (parameter_of "trial-name" t) [ ok v ↦ v == name | raise e ↦ false ]

  unfoldable pub remove_named : Provider T → Value → Result (Provider T)
  remove_named p duplicated_name = remove_all_trials_that_match p (is_named duplicated_name)

  unfoldable pub add_trials : Provider T → List T → Provider T
  add_trials p [] = p
  add_trials p (t ∷ ts) = add_trials (add_trial p t) ts

  -- The provider that is written where another is there.
  unfoldable pub merge_provider : Bool → Bool → Provider T → Provider T → Result (Provider T)
  unfolding intersection remove_named add_trials
  merge_provider overwrite merge_existing existing provider = do
    ids ← intersection "id" existing provider
    raise_if (not (eqb (length ids) 0)) value_error
    names ← intersection "trial-name" existing provider
    raise_if (not (eqb (length names) 0) && not overwrite) value_error
    kept ← fold_result remove_named existing names
    ok (if merge_existing then add_trials provider kept.trials else provider)

  module _ (P : PickleFormat) where
    unfoldable pub write_trial_provider :
        ResultsRepository
        → Dict Text Text
        → Provider T
        → Bool
        → Bool
        → FileSystem
        → Result FileSystem
    unfolding build_output_path merge_provider
    write_trial_provider r schema_variables provider overwrite merge_existing fs = do
      output_path ← build_output_path r schema_variables
      made ← make_folders true fs output_path
      written ← elim (lookup (output_path ++ provider_file ∷ []) made.texts) [
        | none ↦ ok provider
        | some file ↦
            P.load file >>= λ existing. merge_provider overwrite merge_existing existing provider
      ]
      write_text made (output_path ++ provider_file ∷ []) (P.dump written)

    unfoldable pub read_trial_provider : ResultsRepository → Text → FileSystem → Result (Provider T)
    read_trial_provider r provider_name fs =
        read_text fs (join r.base_path provider_name ++ provider_file ∷ []) >>= P.load
