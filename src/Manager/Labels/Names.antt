-- ===== src/Manager/Labels/Names.antt =====
-- rust/session-core/src/manager.rs: the names under which agents are stored.
use slight.Base.{String, ◌≡◌, refl, false, arith}
use slight.Base.Text.{◌==◌, eq_iff}
use slight.Acp.Kinds.{AgentKind, claude_code, codex, fake, custom, as_str}
use slight.Manager.Labels.{agent_kind_from_str}

-- A kind that does not take the name of another.
abbrev pub HasOwnName : AgentKind → Type 0
HasOwnName claude_code = Unit {0}
HasOwnName codex = Unit {0}
HasOwnName fake = Unit {0}
HasOwnName (custom name) =
    (name == "claude_code" ≡ false) × (name == "codex" ≡ false) × (name == "fake" ≡ false)

name_kept : (name : String) → as_str (agent_kind_from_str name) ≡ name
unfolding agent_kind_from_str as_str
name_kept name = ground (arith, eq_iff name "claude_code", eq_iff name "codex", eq_iff name "fake")

kind_kept : (kind : AgentKind) → HasOwnName kind → agent_kind_from_str (as_str kind) ≡ kind
unfolding agent_kind_from_str as_str
kind_kept claude_code own = refl
kind_kept codex own = refl
kind_kept fake own = refl
kind_kept (custom name) (a, b, c) = rw (a, b, c) refl

-- The name of an agent kind is read back as that kind, for the three known kinds and for every
-- custom one that does not take the name of a known kind; and the kind that is read from any name
-- has that name.
pub agent_kind_from_str-as_str :
    (kind : AgentKind) (name : String)
    → HasOwnName kind
    → (agent_kind_from_str (as_str kind) ≡ kind) × (as_str (agent_kind_from_str name) ≡ name)
agent_kind_from_str-as_str kind name own = (kind_kept kind own, name_kept name)
