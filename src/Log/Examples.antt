-- ===== src/Log/Examples.antt =====
-- The theorems on platform/app_log.c at a message with a line break.
use nova_desktop.Base.{true, none, some, arith}
use nova_desktop.Text.{codes}
use nova_desktop.Log.{Log, Answers, Surroundings, plain, absent, warn, nova_log_write}
use nova_desktop.Log.Files.{IsBounded, nova_log_write-IsBounded}

abbrev now : Surroundings
now = record {
  year = 2025;
  month = 3;
  day = 9;
  hour = 12;
  minute = 5;
  second = 0;
  milliseconds = 7;
  process = 4;
  thread = 8;
  utf8 = λ text. some text;
}

abbrev willing : Answers
willing = record {
  opens = true;
  sizes = true;
  moves = true;
  creates = true;
  seeks = true;
  written = 4608;
}

abbrev begun : Log
begun = record {
  ready = true;
  current = plain (codes "x");
  backup = absent;
  operation_sequence = 0;
}

nova_log_write-IsBounded_example :
    IsBounded (nova_log_write now willing warn none none (some (codes "m")) begun)
nova_log_write-IsBounded_example =
    nova_log_write-IsBounded now willing warn none none (some (codes "m")) begun
      (omega arith, omega arith)
