-- ===== src/Examples/Ownership.antt =====
-- Two jobs and one harness process.
use gorchera.Base.{◌≡◌, refl, true, false, List, [], ◌∷◌, All, none, some, arith}
use gorchera.Base.Text.{is_blank}
use gorchera.Base.Dict.{get, put, ℕ_eq, String_eq}
use gorchera.Harness.{ProcessHandle, Harness, Op, tracks, claims, releases, track, claim, run, new}
use gorchera.Harness.Ownership.{
  Holds, EndsUseOf, IsConsistent, claim-run-Holds, run-new-IsConsistent, claim-twice_lost,
}

abbrev server : ProcessHandle
server = record { pid = 7; name = "server"; started_at = 1; running = true }

abbrev tracked : Harness
tracked = track "job-1" server new

claimed : (claim "job-1" 7 tracked).1 ≡ none
unfolding claim track new get put is_blank
claimed = refl

-- The other job reports the process and asks for it, and a process of its own ends.
abbrev others : List Op
others = tracks "job-2" server ∷ claims "job-2" 7 ∷ releases 8 ∷ []

keeps : All (λ op. ¬ EndsUseOf 7 op) others
keeps = ((λ h. h), ((λ h. h), ((λ h. omega (arith, h)), tt)))

claim-run-Holds_example : Holds "job-1" 7 (run (claim "job-1" 7 tracked).0 others)
claim-run-Holds_example = claim-run-Holds "job-1" 7 others tracked claimed keeps

run-new-IsConsistent_example : IsConsistent (run new others)
run-new-IsConsistent_example = run-new-IsConsistent others

named : is_blank "job-2" ≡ false
unfolding is_blank
named = refl

claim-twice_lost_example :
    ((claim "job-1" 7 (claim "job-1" 7 tracked).0).1 ≡ none)
    × (get 7
          (run tracked (
            claims "job-1" 7
            ∷ claims "job-1" 7
            ∷ releases 7
            ∷ tracks "job-2" server
            ∷ [])).harness_owners
        ≡ some "job-2")
claim-twice_lost_example = claim-twice_lost "job-1" "job-2" server tracked claimed named
