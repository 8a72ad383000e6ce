-- ===== src/Unique/Examples.antt =====
-- Numbers taken and given back.
use web_tester.Unique.{UniquePool}

abbrev one_taken : UniquePool
one_taken = record { stack = λ i. i; ptr = 1 }

abbrev two_taken : UniquePool
two_taken = record { stack = λ i. i; ptr = 2 }
