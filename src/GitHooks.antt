-- ===== src/GitHooks.antt =====
-- pkg/hooks/gen.go: the hook scripts of a repository.
use soft_serve.Base.{List, [], ◌∷◌, ◌++◌, Text, str, text_eq, if◌then◌else◌}
use soft_serve.Env.{Env}
use soft_serve.Names.{sanitize_repo}
use soft_serve.Paths.{join_below}
use soft_serve.System.{Sys, ◌>>=◌, ◌>>◌, pure, on_disk, attempt, for_each}
use soft_serve.System.Disk.{FilePath, Faults, os_mkdir_all, os_write_file}

abbrev lines : List Text → Text
lines [] = []
lines (l ∷ ls) = l ++ 10 ∷ lines ls

-- hookTemplate
unfoldable hook_template : Text
hook_template = lines (
    str "#!/usr/bin/env bash"
    ∷ str "# AUTO GENERATED BY SOFT SERVE, DO NOT MODIFY"
    ∷ str "data=$(cat)"
    ∷ str "exitcodes=\"\""
    ∷ str "hookname=$(basename $0)"
    ∷ str "GIT_DIR=${GIT_DIR:-$(dirname $0)/..}"
    ∷ str "for hook in ${GIT_DIR}/hooks/${hookname}.d/*; do"
    ∷ str "  # Avoid running non-executable hooks"
    ∷ str "  test -x \"${hook}\" && test -f \"${hook}\" || continue"
    ∷ []
    ∷ str "  # Run the actual hook"
    ∷ str "  echo \"${data}\" | \"${hook}\" \"$@\""
    ∷ []
    ∷ str "  # Store the exit code for later use"
    ∷ str "  exitcodes=\"${exitcodes} $?\""
    ∷ str "done"
    ∷ []
    ∷ str "# Exit on the first non-zero exit code."
    ∷ str "for i in ${exitcodes}; do"
    ∷ str "  [ ${i} -eq 0 ] || exit ${i}"
    ∷ str "done"
    ∷ [])

-- hooksTmpl, executed
unfoldable hook_script : Text → Text → Text
hook_script hook args = lines (
    str "#!/usr/bin/env bash"
    ∷ str "# AUTO GENERATED BY SOFT SERVE, DO NOT MODIFY"
    ∷ str "if [ -z \"$SOFT_SERVE_REPO_NAME\" ]; then"
    ∷ str "\techo \"Warning: SOFT_SERVE_REPO_NAME not defined. Skipping hooks.\""
    ∷ str "\texit 0"
    ∷ str "fi"
    ∷ (str "\"${SOFT_SERVE_BIN_PATH}\" hook " ++ hook ++ 32 ∷ args)
    ∷ [])

-- the arguments that a hook passes on
abbrev hook_args : Text → Text
hook_args hook =
    if text_eq hook (str "update")
    then str "$1 $2 $3"
    else if text_eq hook (str "post-update")
    then str "$@"
    else []

abbrev hook_names : List Text
hook_names = str "pre-receive" ∷ str "update" ∷ str "post-receive" ∷ str "post-update" ∷ []

module _ {C : Type 0} (env : Env) (faults : Faults) (data_path : FilePath) where
  -- one turn of the loop: an error of the last write is logged only
  unfoldable pub generate_hook : FilePath → Text → Sys C (Unit {0})
  unfolding hook_script hook_template
  generate_hook hooks_path hook = do
    on_disk (os_write_file faults (hooks_path ++ hook ∷ []) hook_template)
    on_disk (os_mkdir_all faults (hooks_path ++ (hook ++ str ".d") ∷ []))
    r ← attempt (
        on_disk (
          os_write_file faults (hooks_path ++ (hook ++ str ".d") ∷ str "soft-serve" ∷ [])
            (hook_script hook (hook_args hook))))
    pure tt

  -- GenerateHooks
  unfoldable pub generate_hooks : Text → Sys C (Unit {0})
  unfolding generate_hook
  generate_hooks repo = do
    let hooks_path =
        join_below (data_path ++ str "repos" ∷ []) (sanitize_repo env repo ++ str ".git/hooks")
    on_disk (os_mkdir_all faults hooks_path)
    for_each hook_names (generate_hook hooks_path)
