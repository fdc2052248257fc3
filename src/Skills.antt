-- ===== src/Skills.antt =====
-- Skill packages: archives of files with one SKILL.md (backend/app/domain/skills).
pub mod Archive
pub mod Subscriptions
pub mod PlanSteps
mod Examples
