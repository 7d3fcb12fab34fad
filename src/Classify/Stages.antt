-- ===== src/Classify/Stages.antt =====
-- The order of the stages of `_c09_stage`.
use ssh_honeypot.Base.{ℕ, ◌≤◌, ◌≡◌, refl, Bool, true, ◌&&◌, ◌||◌, List, [], ◌∷◌, ◌++◌, any}
use ssh_honeypot.Base.{arith, if◌then◌else◌}
use ssh_honeypot.Base.Text.{Str}
use ssh_honeypot.Classify.{
  Stage, recon_only, recon_kill, recon_kill_execute, is_chattr, is_chmod, in_background,
  kills_miner, c09_stage,
}

abbrev pub rank : Stage → ℕ
rank recon_only = 0
rank recon_kill = 1
rank recon_kill_execute = 2

any-append {ℓ} :
    {A : Type ℓ} (p : A → Bool) (xs ys : List A) → any p (xs ++ ys) ≡ (any p xs || any p ys)
any-append p [] ys = refl
any-append p (x ∷ xs) ys = ground (arith, any-append p xs ys)

any-wider :
    (p : Str → Bool) (before cmds after : List Str)
    → any p cmds ≡ true
    → any p (before ++ cmds ++ after) ≡ true
any-wider p before cmds after h =
    ground (arith, any-append p (before ++ cmds) after, any-append p before cmds)

-- The stage by the four findings.
ladder : Bool → Bool → Bool → Bool → Stage
ladder chattr chmod background kills =
    if chattr || (chmod && (background || chattr))
    then recon_kill_execute
    else if kills
    then recon_kill
    else recon_only

ladder_climbs :
    (a b c k a' b' c' k' : Bool)
    → (a ≡ true → a' ≡ true)
    → (b ≡ true → b' ≡ true)
    → (c ≡ true → c' ≡ true)
    → (k ≡ true → k' ≡ true)
    → rank (ladder a b c k) ≤ rank (ladder a' b' c' k')
unfolding ladder
ladder_climbs a b c k a' b' c' k' ha hb hc hk = ground arith

-- More commands, before or after, never lower the stage of a session.
pub c09_stage_climbs :
    (before cmds after : List Str)
    → rank (c09_stage cmds) ≤ rank (c09_stage (before ++ cmds ++ after))
unfolding c09_stage ladder
c09_stage_climbs before cmds after =
    ladder_climbs _ _ _ _ _ _ _ _ (any-wider is_chattr before cmds after)
      (any-wider is_chmod before cmds after) (any-wider in_background before cmds after)
      (any-wider kills_miner before cmds after)
