-- ===== src/AnswerFile/Sections/Plain.antt =====
-- The sections of plain texts of src/models/answerfile.cpp: information, time, hostname, slurm.
use opencattus.Base.{◌≡◌, true, ok}
use opencattus.Deps.{Deps}
use opencattus.KeyFile.{get_string}
use opencattus.KeyFile.View.{reads}
use opencattus.AnswerFile.{AfInformation, AfTime, AfHostname, AfSlurm}
use opencattus.AnswerFile.Dump.{
  dump_information, dump_time_settings, dump_hostname_settings, dump_slurm,
}
use opencattus.AnswerFile.Load.{
  load_information, load_time_settings, load_hostname_settings, load_slurm,
}

module _ (d : Deps) where
  -- What `dumpInformation` writes into any key file, `loadInformation` reads back unchanged.
  pub load-dump_information :
      (information : AfInformation) (file : d.Store)
      → load_information d (dump_information d information file) ≡ ok information
  unfolding load_information dump_information get_string
  load-dump_information information file = simp d.get_value-set_value

  pub load-dump_time_settings :
      (time : AfTime) (file : d.Store)
      → load_time_settings d (dump_time_settings d time file) ≡ ok time
  unfolding load_time_settings dump_time_settings get_string
  load-dump_time_settings time file = simp d.get_value-set_value

  pub load-dump_hostname_settings :
      (hostname : AfHostname) (file : d.Store)
      → load_hostname_settings d (dump_hostname_settings d hostname file) ≡ ok hostname
  unfolding load_hostname_settings dump_hostname_settings get_string
  load-dump_hostname_settings hostname file = simp d.get_value-set_value

  -- An enabled [slurm] section that `dumpSlurm` writes into any key file is read back unchanged.
  pub load-dump_slurm :
      (slurm old : AfSlurm) (file : d.Store)
      → slurm.enabled ≡ true
      → load_slurm d (dump_slurm d slurm file) old ≡ ok slurm
  unfolding load_slurm dump_slurm
  load-dump_slurm slurm old file on = rw on (simp (reads, d.has_group-set_value))
