-- ===== src/Risk/Inference.antt =====
-- What the inference from a command finds (shared/risk_config.py).
use Prim.Native.String
use xoc_api_aws.Base.{
  String, ◌≡◌, refl, ◌∙◌, ◌⊎◌, inl, inr, true, Option, some, List, [], ◌∷◌, In, here, there, ◌≢◌,
  ne→==,
}
use xoc_api_aws.Base.Text.{strip, lower, words}
use xoc_api_aws.Risk.Levels.{RiskLevel, critical}
use xoc_api_aws.Risk.Pattern.{search_in, recursive_flag_pattern}
use xoc_api_aws.Risk.Command.{
  infer_risk_from_command, pattern_risk, split_command_segments, segment_risk, segment_head,
  command_risk, raise_all, raise_level, redirect_risk, mentions_system_path,
}
use xoc_api_aws.Risk.Order.{Reaches, Reaches-raise_left, Reaches-raise_right, raise_level-or}

Reaches-raise_all :
    (l : RiskLevel) (level : Option RiskLevel) (segments : List String)
    → Reaches l level
    → Reaches l (raise_all level segments)
unfolding raise_all
Reaches-raise_all l level [] h = h
Reaches-raise_all l level (s ∷ ss) h =
    Reaches-raise_all l (raise_level level (segment_risk s)) ss
      (Reaches-raise_left l level (segment_risk s) h)

Reaches-raise_all-In :
    (l : RiskLevel) (level : Option RiskLevel) (segment : String) (segments : List String)
    → In segment segments
    → Reaches l (segment_risk segment)
    → Reaches l (raise_all level segments)
unfolding raise_all
Reaches-raise_all-In l level s [] i h = elim i [ ]
Reaches-raise_all-In l level s (_ ∷ ss) here h =
    Reaches-raise_all l (raise_level level (segment_risk s)) ss
      (Reaches-raise_right l level (segment_risk s) h)
Reaches-raise_all-In l level s (t ∷ ss) (there i) h =
    Reaches-raise_all-In l (raise_level level (segment_risk t)) s ss i h

-- Where the result of `infer_risk_from_command` can come from.
pub data IsFinding (command : String) : Option RiskLevel → Type 0 where
  by_pattern : IsFinding command (pattern_risk (strip command))
  by_segment :
      (segment : String)
      → In segment (split_command_segments (strip command))
      → IsFinding command (segment_risk segment)
  by_redirect : IsFinding command (redirect_risk (strip command))

-- The inferred risk of a command with some text in it is at least that of every finding: of each
-- executable segment, of the tests on the whole text and of the redirection.
pub infer-Reaches :
    (command : String) (l : RiskLevel) {finding : Option RiskLevel}
    → strip command ≢ ""
    → IsFinding command finding
    → Reaches l finding
    → Reaches l (infer_risk_from_command command)
unfolding infer_risk_from_command
infer-Reaches command l some_text by_pattern h = rw (ne→== (strip command) "" some_text) (
    Reaches-raise_left l _ (redirect_risk (strip command)) (
      Reaches-raise_all l (pattern_risk (strip command)) (split_command_segments (strip command))
        h))
infer-Reaches command l some_text (by_segment segment i) h =
    rw (ne→== (strip command) "" some_text) (
      Reaches-raise_left l _ (redirect_risk (strip command)) (
        Reaches-raise_all-In l (pattern_risk (strip command)) segment
          (split_command_segments (strip command)) i h))
infer-Reaches command l some_text by_redirect h = rw (ne→== (strip command) "" some_text) (
    Reaches-raise_right l
      (raise_all (pattern_risk (strip command)) (split_command_segments (strip command)))
      (redirect_risk (strip command)) h)

-- What the loop ends with is what it began with, or the risk of a segment.
raise_all-from :
    (level : Option RiskLevel) (segments : List String)
    → (raise_all level segments ≡ level)
      ⊎ ((segment : String) × In segment segments
          × (raise_all level segments ≡ segment_risk segment))
unfolding raise_all
raise_all-from level [] = inl refl
raise_all-from level (s ∷ ss) = elim (raise_all-from (raise_level level (segment_risk s)) ss) [
  | inr (t, i, e) ↦ inr (t, there i, e)
  | inl e ↦ elim (raise_level-or level (segment_risk s)) [
    | inl same ↦ inl (e ∙ same)
    | inr new ↦ inr (s, here, e ∙ new)
  ]
]

-- The inferred risk of a command with some text in it is one of its findings, never a level that
-- nothing in the command has.
pub infer-IsFinding :
    (command : String)
    → strip command ≢ ""
    → (finding : Option RiskLevel) × IsFinding command finding
      × (infer_risk_from_command command ≡ finding)
unfolding infer_risk_from_command
infer-IsFinding command some_text =
    rw (ne→== (strip command) "" some_text)
      (elim (raise_level-or
        (raise_all (pattern_risk (strip command)) (split_command_segments (strip command)))
        (redirect_risk (strip command))) [
          | inr last ↦ (redirect_risk (strip command), by_redirect, last)
          | inl first ↦
              elim (raise_all-from (pattern_risk (strip command))
                (split_command_segments (strip command))) [
                  | inl e ↦ (pattern_risk (strip command), by_pattern, first ∙ e)
                  | inr (s, i, e) ↦ (segment_risk s, by_segment s i, first ∙ e)
                ]
        ])

-- A segment that runs `rm` with a recursive flag and a system path among its arguments is critical.
pub recursive_rm-critical :
    (segment args : String)
    → segment_head segment ≡ ("rm", args)
    → search_in recursive_flag_pattern (String.◌++◌ " " (String.◌++◌ (lower args) " ")) ≡ true
    → mentions_system_path (words args) ≡ true
    → segment_risk segment ≡ some critical
unfolding segment_risk command_risk
recursive_rm-critical segment args head flag path = rw (head, flag, path) refl
