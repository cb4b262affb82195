-- ===== src/Tests.antt =====
-- Runs at concrete inputs, and an instance of each theorem that has hypotheses.
mod QueryTests
mod DiffTests
mod DiffViewTests
mod QueryTheorems
mod DirectoryTests
mod ApiTests
mod HighlightTests
mod LogTests
mod RefTests
mod TreeTests
mod ShowTests
mod BlameTests
mod SearchTests
mod SearchTheorems
mod PageTests
mod HandlerTests
mod ServerTests
mod TemplateTests
