-- ===== src/Tests.antt =====
-- Concrete states of the programs, tests by evaluation, and the theorems at inputs that meet their
-- hypotheses.
mod Data
mod ConfiguratorTests
mod MenuTests
mod RoundTests
mod PrintTests
mod MasterTests
mod ProcessTests
mod SlaveTests
mod ThreadTests
mod SystemTests
