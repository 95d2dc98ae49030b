-- ===== src/Tests.antt =====
-- Runs of the model on concrete inputs, and the theorems at inputs that meet their hypotheses.
mod TreeRuns
mod CrcRuns
mod MbrRuns
mod GptRuns
mod VhdRuns
mod Qcow2Runs
mod FatRuns
mod FatNamesRuns
mod TarRuns
mod MmapRuns
mod Iso9660Runs
mod CatRuns
mod ExtractRuns
mod WimRuns
mod ExtRuns
mod ZipRuns
mod UdfRuns
mod DetectRuns
mod ApfsRuns
mod HfsplusRuns
mod NtfsRuns
mod SquashfsRuns
mod DmgRuns
