-- ===== src/Converter/Output/Left.antt =====
-- What a failed conversion of internal/converter/util.go leaves behind.
use llm_file_gateway.Prelude.{
  ◌≡◌, sym, subst, ◌∙◌, Bool, true, false, not, List, [], ◌∷◌, ◌⊎◌, inl, inr, arith, All,
  select-All, All-select, All-map, All-both,
}
use llm_file_gateway.Prelude.Text.{String}
use llm_file_gateway.Store.{FilePath}
use llm_file_gateway.Files.Disk.{Disk, same_path, is_below, remove_all}
use llm_file_gateway.Files.Retry.{Failure}
use llm_file_gateway.Converter.Calls.{World, Action, pure, continue, ◌>>=◌, attempt, remove_file}
use llm_file_gateway.Converter.Output.{
  manifest_path, remove_conversion_output, clean_up, with_output_directory,
}

-- Neither a file of the output directory nor a manifest.
abbrev pub IsClean : FilePath → Disk → Type 0
IsClean output_dir = All (λ entry.
    (is_below output_dir entry.0 ≡ false) × (same_path (manifest_path output_dir) entry.0 ≡ false))

cleared :
    (output_dir : FilePath) (disk : Disk)
    → IsClean output_dir (remove_file (manifest_path output_dir) (remove_all output_dir disk))
cleared output_dir disk =
    All-map
      (λ entry.
        (not (same_path (manifest_path output_dir) entry.0) ≡ true)
        × (not (is_below output_dir entry.0) ≡ true))
      _ (λ entry h. (ground (arith, h.1), ground (arith, h.0)))
      (remove_file (manifest_path output_dir) (remove_all output_dir disk))
      (All-both _ _ (remove_file (manifest_path output_dir) (remove_all output_dir disk))
        (select-All (λ entry. not (same_path (manifest_path output_dir) entry.0))
          (remove_all output_dir disk))
        (All-select (λ entry. not (is_below output_dir entry.0) ≡ true)
          (λ entry. not (same_path (manifest_path output_dir) entry.0)) (remove_all output_dir disk)
          (select-All (λ entry. not (is_below output_dir entry.0)) disk)))

removed :
    (output_dir : FilePath) (disk : Disk) (outcomes : List Bool) (stuck : Bool)
    → let w : World = record { disk = disk; outcomes = outcomes; stuck = stuck } in
      (remove_conversion_output output_dir w).1.stuck ≡ false
      → IsClean output_dir (remove_conversion_output output_dir w).1.disk
unfolding remove_conversion_output
removed output_dir disk [] stuck h = cleared output_dir disk
removed output_dir disk (true ∷ []) stuck h = cleared output_dir disk
removed output_dir disk (true ∷ true ∷ outcomes) stuck h = cleared output_dir disk
removed output_dir disk (true ∷ false ∷ outcomes) stuck h = absurd (cc h)
removed output_dir disk (false ∷ outcomes) stuck h = absurd (cc h)

pub removal_cleans :
    (output_dir : FilePath) (w : World)
    → (remove_conversion_output output_dir w).1.stuck ≡ false
    → IsClean output_dir (remove_conversion_output output_dir w).1.disk
removal_cleans output_dir w h = removed output_dir w.disk w.outcomes w.stuck h

attempt_keeps :
    (text : String) (w : World)
    → ((attempt text w).1.disk ≡ w.disk) × ((attempt text w).1.stuck ≡ w.stuck)
unfolding attempt
attempt_keeps text w = ground arith

module _ {A : Type 0} (output_dir : FilePath) (failure : Failure) where
  cleaned_up :
      (r : (Failure ⊎ A) × World)
      → (clean_up output_dir r).0 ≡ inl failure
      → (clean_up output_dir r).1.stuck ≡ false
      → IsClean output_dir (clean_up output_dir r).1.disk
  cleaned_up (inr result, w) e h = absurd (cc e)
  cleaned_up (inl cause, w) e h = removal_cleans output_dir w h

  -- The rest of an action after one that left the disk clean.
  rest_clean :
      (f : Unit {0} → Action A)
      → ((w : World)
          → (w.stuck ≡ false → IsClean output_dir w.disk)
          → (f tt w).0 ≡ inl failure
          → (f tt w).1.stuck ≡ false
          → IsClean output_dir (f tt w).1.disk)
      → (r : (Failure ⊎ Unit {0}) × World) → (r.1.stuck ≡ false → IsClean output_dir r.1.disk)
      → (continue f r).0 ≡ inl failure
      → (continue f r).1.stuck ≡ false
      → IsClean output_dir (continue f r).1.disk
  rest_clean f k (inl cause, w) clean e h = clean h
  rest_clean f k (inr t, w) clean e h = k w clean e h

  pub failed_output_clean :
      (convert : Action A) (w : World)
      → (with_output_directory output_dir convert w).0 ≡ inl failure
      → (with_output_directory output_dir convert w).1.stuck ≡ false
      → IsClean output_dir (with_output_directory output_dir convert w).1.disk
  unfolding with_output_directory
  failed_output_clean convert w e h =
      rest_clean _
        (λ w1 clean.
          rest_clean _
            (λ w2 _.
              cleaned_up
                ((convert >>= λ result. attempt "secure permissions" >>= λ _. pure result) w2))
            (attempt "create output" w1) (created w1 clean))
        (remove_conversion_output output_dir w) (removal_cleans output_dir w) e h
    where
      created :
          (w1 : World)
          → (w1.stuck ≡ false → IsClean output_dir w1.disk)
          → (attempt "create output" w1).1.stuck ≡ false
          → IsClean output_dir (attempt "create output" w1).1.disk
      created w1 clean k =
          let (same_disk, same_stuck) = attempt_keeps "create output" w1 in
          subst (IsClean output_dir) (sym same_disk) (clean (sym same_stuck ∙ k))
