-- ===== src/Spy/Versions.antt =====
-- The PHP version of a process: `get_php_version`, and the choice of the tracer by `opt_phpv`.
use phpspy.Prelude.{
  ℕ, ◌+◌, leb, ltb, ◌==◌, if◌then◌else◌, Bool, true, Option, none, some, [], ◌∷◌, ◌++◌, take,
  length,
}
use phpspy.Prelude.Text.{Text, codes, text_eq, decimal_ℤ}
use phpspy.Prelude.Int.{ℤ}
use phpspy.Options.{Options}
use phpspy.Shell.{shell_escape}
use phpspy.Zend.Remote.{bytes, esrch, refused, Target, copy_proc_mem, field, done, fail, stuck}
use phpspy.Zend.Versions.{Version, v70, v71, v72, v73, v74, v80, v81, v82, v83, v84, v85, v86}

-- Where `phpv` becomes `opt_phpv`, in the order of the tests.
unfoldable pub phpv_of : Text → Option Text
unfolding text_eq
phpv_of phpv =
    let t = take 3 phpv in
    if text_eq t (codes "7.0")
    then some (codes "70")
    else if text_eq t (codes "7.1")
    then some (codes "71")
    else if text_eq t (codes "7.2")
    then some (codes "72")
    else if text_eq t (codes "7.3")
    then some (codes "73")
    else if text_eq t (codes "7.4")
    then some (codes "74")
    else if text_eq t (codes "8.0")
    then some (codes "80")
    else if text_eq t (codes "8.1")
    then some (codes "81")
    else if text_eq t (codes "8.2")
    then some (codes "82")
    else if text_eq t (codes "8.3")
    then some (codes "83")
    else if text_eq t (codes "8.4")
    then some (codes "84")
    else if text_eq t (codes "8.5")
    then some (codes "85")
    else if text_eq t (codes "8.6")
    then some (codes "86")
    else none

-- Which tracer `opt_phpv` chooses.
unfoldable pub tracer_of : Text → Option Version
unfolding text_eq
tracer_of phpv =
    if text_eq (codes "70") phpv
    then some v70
    else if text_eq (codes "71") phpv
    then some v71
    else if text_eq (codes "72") phpv
    then some v72
    else if text_eq (codes "73") phpv
    then some v73
    else if text_eq (codes "74") phpv
    then some v74
    else if text_eq (codes "80") phpv
    then some v80
    else if text_eq (codes "81") phpv
    then some v81
    else if text_eq (codes "82") phpv
    then some v82
    else if text_eq (codes "83") phpv
    then some v83
    else if text_eq (codes "84") phpv
    then some v84
    else if text_eq (codes "85") phpv
    then some v85
    else if text_eq (codes "86") phpv
    then some v86
    else none

-- The bytes that `process_vm_readv` leaves in an array, whether it has read all of them or not.
unfoldable pub left_bytes : Target → ℕ → ℕ → ℕ → Text
left_bytes t raddr size k =
    if raddr == 0
    then []
    else elim (t.vm_readv k raddr size) [ bytes b ↦ take size b | esrch ↦ [] | refused ↦ [] ]

-- `_zend_module_entry`: 88 bytes and the pointer to the version.
unfoldable pub read_phpv : Target → ℕ → ℕ → Text
unfolding copy_proc_mem field
read_phpv t module_addr k =
    if module_addr == 0 then [] else elim (copy_proc_mem t module_addr 96 k).0 [
      | done entry ↦ left_bytes t (field 88 8 entry) 3 (k + 1)
      | fail rv ↦ []
      | stuck ↦ []
    ]

-- The command that looks for the version in the binary.
unfoldable pub version_command : Options → ℤ → Text → Text
version_command o pid libname =
    codes "{ { echo -n /proc/"
    ++ (decimal_ℤ pid
        ++ (codes "/root/;   awk -ve=1 -vp="
            ++ (libname
                ++ (codes " '$0~p{print $NF; e=0; exit} END{exit e}' /proc/"
                    ++ (decimal_ℤ pid
                        ++ (codes "/maps   || readlink /proc/"
                            ++ (decimal_ℤ pid
                                ++ (codes
                                      "/exe; } | { xargs stat --printf=%n 2>/dev/null || echo /proc/"
                                    ++ (decimal_ℤ pid
                                        ++ (codes
                                              "/exe; } | xargs strings | grep -Eo 'X-Powered-By: PHP/[0-9]+\\.[0-9]+' | grep -Eo '[0-9]+\\.[0-9]+'; }"
                                            ++ (if ltb 0 o.quiet
                                                then codes " 2>/dev/null"
                                                else [])))))))))))

-- `phpv[0] == '\0'`
abbrev pub is_unread : Text → Bool
is_unread [] = true
is_unread (c ∷ cs) = c == 0

-- The version that the binary names, if three bytes come out of the pipe.
unfoldable pub grep_phpv : Options → (Text → Option Text) → ℤ → Option Text
unfolding shell_escape version_command
grep_phpv o popen pid = elim (shell_escape o.libname_awk_patt 256) [
  | none ↦ none
  | some libname ↦
      if leb 1024 (length (version_command o pid libname))
      then none
      else elim (popen (version_command o pid libname)) [
        | none ↦ none
        | some out ↦ if leb 3 (length out) then some (take 3 out) else none
      ]
]

-- `popen` is what comes out of a command; `k` counts the reads of the memory.
unfoldable pub get_php_version : Options → (Text → Option Text) → Target → ℤ → ℕ → ℕ → Option Text
get_php_version o popen t pid module_addr k =
    let memory = read_phpv t module_addr k in
    if is_unread memory
    then elim (grep_phpv o popen pid) [ none ↦ none | some phpv ↦ phpv_of phpv ]
    else phpv_of memory

-- `opt_phpv`, and the tracer that it chooses.
unfoldable pub choose_tracer : Options → (Text → Option Text) → Target → ℤ → ℕ → ℕ → Option Version
choose_tracer o popen t pid module_addr k =
    if text_eq o.phpv (codes "auto")
    then elim (get_php_version o popen t pid module_addr k) [
      | none ↦ none
      | some phpv ↦ tracer_of phpv
    ]
    else tracer_of o.phpv
