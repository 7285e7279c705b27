-- ===== src/ApprovalPolicy/Modes.antt =====
-- What pico/approval.py lets a tool call do under each permission mode.
use thread_forge.Prelude.{
  String, ◌≡◌, refl, Option, false, [], ◌∷◌, if◌then◌else◌, ◌==◌, ◌||◌, contains, arith,
}
use thread_forge.ApprovalPolicy.{
  ApprovalOutcome, ApprovalRequest, Strategy, decide, strategy_for_mode, strategy_for_policy,
}

-- What a mode lets a tool call do, whichever strategy asks the user: bypass and auto approve it, plan
-- and never reject it, acceptEdits approves write_file and patch_file and no other tool, about which
-- it asks, and every other text of a mode asks about all of them. Chosen by a policy, acceptEdits
-- approves the same two tools and asks the terminal about the rest, and a text that is none of the
-- five asks the terminal about all of them.
pub strategy_for_mode-promised :
    (text : String) (fallback : Strategy) (input : ApprovalRequest → Option String)
    (q : ApprovalRequest)
    → contains text ("bypass" ∷ "auto" ∷ "plan" ∷ "never" ∷ "acceptEdits" ∷ []) ≡ false
    → (decide (strategy_for_mode "bypass" fallback) q ≡ ApprovalOutcome.approved)
      × (decide (strategy_for_mode "auto" fallback) q ≡ ApprovalOutcome.approved)
      × (decide (strategy_for_mode "plan" fallback) q ≡ ApprovalOutcome.rejected)
      × (decide (strategy_for_mode "never" fallback) q ≡ ApprovalOutcome.rejected)
      × (decide (strategy_for_mode "acceptEdits" fallback) q ≡ (
          if q.name == "write_file" || q.name == "patch_file"
          then ApprovalOutcome.approved
          else decide fallback q))
      × (decide (strategy_for_mode text fallback) q ≡ decide fallback q)
      × (decide (strategy_for_policy "acceptEdits" input) q ≡ (
          if q.name == "write_file" || q.name == "patch_file"
          then ApprovalOutcome.approved
          else decide (Strategy.ask input) q))
      × (decide (strategy_for_policy text input) q ≡ decide (Strategy.ask input) q)
unfolding decide strategy_for_mode strategy_for_policy
strategy_for_mode-promised text fallback input q h =
    (refl, refl, refl, refl, ground arith, ground arith, ground arith, ground arith)
