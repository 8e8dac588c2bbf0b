-- ===== src/Tests.antt =====
-- Concrete inputs, runs of the code on them, and the theorems at those inputs.
mod Fixtures
mod WebhookExamples
mod StatusExamples
mod ValidatorExamples
mod DiffExamples
mod ActionExamples
mod ReconcileExamples
mod NodeExamples
mod SharingExamples
mod DaemonExamples
mod MacvlanExamples
mod ElectionExamples
mod ErrorExamples
