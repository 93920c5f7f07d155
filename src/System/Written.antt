-- ===== src/System/Written.antt =====
-- What os.WriteFile leaves.
use soft_serve.Base.{
  ◌≡◌, refl, ap, ◌∙◌, true, not, ◌&&◌, some, [], ◌∷◌, ◌++◌, Text, text_eq_refl, select, arith,
  Option-cases, inl, inr, Bool-cases,
}
use soft_serve.Store.Exec.{ok}
use soft_serve.Store.Found.{find-append_none, any-select}
use soft_serve.System.Disk.{
  FilePath, Files, Faults, write_file, Entry, is_under, is_dir, path_eq, parent, entry, written,
  os_write_file,
}

is_under_refl : (p : FilePath) → is_under p p ≡ true
unfolding is_under
is_under_refl [] = refl
is_under_refl (a ∷ p) = ground (arith, text_eq_refl a, is_under_refl p)

path_eq_refl : (p : FilePath) → path_eq p p ≡ true
unfolding path_eq
path_eq_refl p = rw (is_under_refl p) refl

entry-written :
    (p : FilePath) (c : Text) (d after : Files)
    → written p c d ≡ some after
    → entry p after ≡ some (record { at = p; content = some c })
unfolding written entry
entry-written p c d after h = elim (Bool-cases (is_dir (parent p) d && not (is_dir p d))) [
  | inr no' ↦ absurd (ground (arith, rw no' at h))
  | inl yes' ↦
      let e : Entry = record { at = p; content = some c } in
      let end : select (λ e'. not (path_eq p e'.at)) d ++ e ∷ [] ≡ after =
        ground (arith, rw yes' at h) in
      rw (← end) (
        find-append_none (λ e'. path_eq p e'.at) (select (λ e'. not (path_eq p e'.at)) d) e
          (any-select (λ e'. path_eq p e'.at) d) (path_eq_refl p))
]

-- a file that was written is there, with its content
pub entry-os_write_file :
    (faults : Faults) (p : FilePath) (c : Text) (d after : Files)
    → os_write_file faults p c d ≡ (ok tt, after)
    → entry p after ≡ some (record { at = p; content = some c })
unfolding os_write_file
entry-os_write_file faults p c d after h = elim (Option-cases (faults (write_file p) d)) [
  | inr (left, fault) ↦ absurd (ground (arith, rw fault at h))
  | inl fine ↦ elim (Option-cases (written p c d)) [
    | inl failed ↦ absurd (ground (arith, rw (fine, failed) at h))
    | inr (d', done) ↦
        entry-written p c d after (done ∙ ap some (ap (λ r. r.1) (rw (fine, done) at h)))
  ]
]
