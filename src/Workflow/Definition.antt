-- ===== src/Workflow/Definition.antt =====
-- internal/workflow/definition.go and builtin.go: Stages, transitions and their validation.
pub mod Ids
pub mod Stages
pub mod Build
pub mod Builtin
pub mod Sound
pub mod IdLaws
pub mod BuiltinLaws
pub mod RolePolicies
pub mod ReviewAuthority
pub mod PolicyExamples
