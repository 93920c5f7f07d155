-- ===== src/System/Removed.antt =====
-- What os.RemoveAll leaves.
use soft_serve.Base.{
  ◌≡◌, refl, sym, ap, true, false, [], ◌∷◌, text_eq_iff, arith, Option-cases, inl, inr,
}
use soft_serve.Store.Exec.{ok}
use soft_serve.System.Disk.{
  FilePath, Files, Faults, remove_all, is_under, path_eq, entry, exists, without, os_remove_all,
}

pub is_under_trans :
    (p q s : FilePath) → is_under p q ≡ true → is_under q s ≡ true → is_under p s ≡ true
unfolding is_under
is_under_trans [] q s h k = refl
is_under_trans (a ∷ p) [] s h k = absurd (ground arith)
is_under_trans (a ∷ p) (b ∷ q) [] h k = absurd (ground arith)
is_under_trans (a ∷ p) (b ∷ q) (c ∷ s) h k =
    ground (arith, is_under_trans p q s, text_eq_iff a b, text_eq_iff b c, text_eq_iff a c)

-- nothing at or below a path that is left out exists
pub exists-without :
    (p q : FilePath) (d : Files) → is_under p q ≡ true → exists q (without p d) ≡ false
unfolding exists entry without path_eq
exists-without p q [] h = refl
exists-without p q (e ∷ d) h = ground (arith, exists-without p q d h, is_under_trans p q e.at h)

pub os_remove_all_ok :
    (faults : Faults) (p : FilePath) (d after : Files)
    → os_remove_all faults p d ≡ (ok tt, after)
    → after ≡ without p d
unfolding os_remove_all
os_remove_all_ok faults p d after h = elim (Option-cases (faults (remove_all p) d)) [
  | inl fine ↦ sym (ap (λ r. r.1) (rw fine at h))
  | inr (left, fault) ↦ absurd (ground (arith, rw fault at h))
]
