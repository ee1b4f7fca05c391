-- ===== src/Tests/LoggingTests.antt =====
-- src/logger/Logging.h and src/logger/Logging.cc: a statement in src/a.cc.
use a_tiny_network_library.Common.{ℕ, List, [], ◌∷◌, replicate}
use a_tiny_network_library.Common.Text.{codes}
use a_tiny_network_library.Logger.Logging.{Tm, System, Place}

abbrev noon : ℕ → Tm
noon seconds = record {
  tm_year = 122;
  tm_mon = 9;
  tm_mday = 26;
  tm_hour = 12;
  tm_min = 0;
  tm_sec = 59;
}

abbrev sys : System
sys = record {
  localtime = noon;
  strerror = λ n. codes "error";
  now = 1666785659000042;
  array = replicate 200 0;
}

abbrev place : Place
place = record { file = codes "src/a.cc"; line = 42; func = codes "main" }

abbrev texts : List (List ℕ)
texts = codes "fd " ∷ codes "closed" ∷ []
