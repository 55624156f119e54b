-- ===== src/Detect/Kinds.antt =====
-- identity.go: what the kind of a worktree tells.
use lalia.Prelude.{
  ◌≡◌, refl, sym, inl, inr, String, true, false, if◌then◌else◌, ◌==◌, Bool-cases, arith, eq_iff,
}
use lalia.Session.{AgentInfo}
use lalia.Detect.{Surroundings, common_dir, main_root, worktree_kind, detect_agent_info}

-- What WorktreeKind, which may be empty, says of the root, the main root and the branch
pub record KindIsConsistent (kind root main branch : String) : Type 0 where
  pub outside : (kind == "outside") ≡ (root == "")
  pub of_outside : kind ≡ "outside" → main ≡ ""
  pub of_main : kind ≡ "main" → root ≡ main
  pub of_secondary : kind ≡ "secondary" → (root == main) ≡ false
  pub of_detached : kind ≡ "detached" → branch ≡ "HEAD"
  pub of_unknown : kind ≡ "" → main ≡ ""

differ : {A : Type 0} (a b : String) → (a == b) ≡ false → a ≡ b → A
differ a b other same =
    let equal : (a == b) ≡ true = (eq_iff a b).1 same in ground (arith, equal, other)

kind-main :
    (root main branch : String)
    → (root == "") ≡ false
    → KindIsConsistent (if root == main then "main" else "secondary") root main branch
kind-main root main branch inside = elim (Bool-cases (root == main)) [
  | inl same ↦ rw same record {
    outside = sym inside;
    of_outside = differ "main" "outside" refl;
    of_main = λ h. (eq_iff root main).0 same;
    of_secondary = differ "main" "secondary" refl;
    of_detached = differ "main" "detached" refl;
    of_unknown = differ "main" "" refl;
  }
  | inr other ↦ rw other record {
    outside = sym inside;
    of_outside = differ "secondary" "outside" refl;
    of_main = differ "secondary" "main" refl;
    of_secondary = λ h. other;
    of_detached = differ "secondary" "detached" refl;
    of_unknown = differ "secondary" "" refl;
  }
]

worktree_kind-IsConsistent :
    (w : Surroundings) (cwd root branch : String)
    → KindIsConsistent (worktree_kind w cwd root branch) root (main_root w cwd root) branch
unfolding worktree_kind main_root
worktree_kind-IsConsistent w cwd root branch = elim (Bool-cases (root == "")) [
  | inl outside ↦ rw outside record {
    outside = sym outside;
    of_outside = λ h. refl;
    of_main = differ "outside" "main" refl;
    of_secondary = differ "outside" "secondary" refl;
    of_detached = differ "outside" "detached" refl;
    of_unknown = differ "outside" "" refl;
  }
  | inr inside ↦ elim (Bool-cases (branch == "HEAD")) [
    | inl detached ↦
        rw (inside, detached)
          record {
            outside = sym inside;
            of_outside = differ "detached" "outside" refl;
            of_main = differ "detached" "main" refl;
            of_secondary = differ "detached" "secondary" refl;
            of_detached = λ h. (eq_iff branch "HEAD").0 detached;
            of_unknown = differ "detached" "" refl;
          }
    | inr attached ↦ elim (Bool-cases (common_dir w cwd == "")) [
      | inl alone ↦
          rw (inside, attached, alone)
            record {
              outside = sym inside;
              of_outside = differ "" "outside" refl;
              of_main = differ "" "main" refl;
              of_secondary = differ "" "secondary" refl;
              of_detached = differ "" "detached" refl;
              of_unknown = λ h. refl;
            }
      | inr shared ↦
          rw (inside, attached, shared)
            (kind-main root (w.canonical (w.dir (common_dir w cwd))) branch inside)
    ]
  ]
]

abbrev pub IsConsistent : AgentInfo → Type 0
IsConsistent info =
    KindIsConsistent info.worktree_kind info.repo_root info.main_repo_root info.branch

-- The kind of worktree that DetectAgentInfo reports agrees with the other fields: it is outside
-- exactly when there is no root, main only if the root is the main root, secondary only if it is
-- another, detached only on the branch HEAD, and empty or outside only without a main root.
pub detect_agent_info-IsConsistent :
    (w : Surroundings) (over : AgentInfo) → IsConsistent (detect_agent_info w over)
unfolding detect_agent_info
detect_agent_info-IsConsistent w over =
    worktree_kind-IsConsistent w (detect_agent_info w over).cwd (detect_agent_info w over).repo_root
      (detect_agent_info w over).branch
