-- ===== src/AnswerFile/Sections.antt =====
-- The sections of an answerfile (src/models/answerfile.cpp), written by the `dump…` methods and
-- read again by the `load…` methods.
pub mod Plain
pub mod Release
pub mod Addresses
pub mod Mail
pub mod Choices
