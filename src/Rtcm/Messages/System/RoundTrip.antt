-- ===== src/Rtcm/Messages/System/RoundTrip.antt =====
-- The message 1013 is read as it was encoded, announcements included.
use rtcmbridge.Base.{ℕ, ◌^◌, ◌<◌, List, [], ◌∷◌, ◌++◌, arith, length}
use rtcmbridge.Rtcm.BitReader.Bits.{to_bits}
use rtcmbridge.Rtcm.Reading.Decodes.{Decodes, get_u-Decodes, >>=-Decodes, return-Decodes}
use rtcmbridge.Rtcm.Messages.System.{read_system, read_announcement, read_announcements}

pub record Announcement : Type 0 where
  pub msg : ℕ
  pub sync : ℕ
  pub interval : ℕ
  pub msg_fits : msg < 2 ^ 12
  pub sync_fits : sync < 2 ^ 1
  pub interval_fits : interval < 2 ^ 16

unfoldable pub announcement_bits : Announcement → List ℕ
announcement_bits a = to_bits 12 a.msg ++ (to_bits 1 a.sync ++ (to_bits 16 a.interval ++ []))

read_announcement-Decodes : (a : Announcement) → Decodes read_announcement (announcement_bits a) tt
unfolding read_announcement announcement_bits
read_announcement-Decodes a = >>=-Decodes _ (get_u-Decodes 12 a.msg (omega arith) a.msg_fits) (
    >>=-Decodes _ (get_u-Decodes 1 a.sync (omega arith) a.sync_fits) (
      >>=-Decodes _ (get_u-Decodes 16 a.interval (omega arith) a.interval_fits) (return-Decodes _)))

unfoldable pub announcements_bits : List Announcement → List ℕ
announcements_bits [] = []
announcements_bits (a ∷ as_) = announcement_bits a ++ announcements_bits as_

pub read_announcements-Decodes :
    (l : List Announcement) → Decodes (read_announcements (length l)) (announcements_bits l) tt
unfolding read_announcements announcements_bits
read_announcements-Decodes [] = return-Decodes tt
read_announcements-Decodes (a ∷ l) =
    >>=-Decodes _ (read_announcement-Decodes a) (read_announcements-Decodes l)

pub record System : Type 0 where
  pub stid : ℕ
  pub mjd : ℕ
  pub sod : ℕ
  pub announcements : List Announcement
  pub stid_fits : stid < 2 ^ 12
  pub mjd_fits : mjd < 2 ^ 16
  pub sod_fits : sod < 2 ^ 17
  pub few : length announcements < 2 ^ 5

unfoldable pub system_bits : System → List ℕ
system_bits s =
    to_bits 12 s.stid
    ++ (to_bits 16 s.mjd ++ (to_bits 17 s.sod ++ (to_bits 5 (length s.announcements) ++ [])))

pub read_system-Decodes :
    (s : System)
    → Decodes read_system (system_bits s) (s.stid, s.mjd, s.sod, length s.announcements)
unfolding read_system system_bits
read_system-Decodes s = >>=-Decodes _ (get_u-Decodes 12 s.stid (omega arith) s.stid_fits) (
    >>=-Decodes _ (get_u-Decodes 16 s.mjd (omega arith) s.mjd_fits) (
      >>=-Decodes _ (get_u-Decodes 17 s.sod (omega arith) s.sod_fits) (
        >>=-Decodes _ (get_u-Decodes 5 (length s.announcements) (omega arith) s.few)
          (return-Decodes _))))
