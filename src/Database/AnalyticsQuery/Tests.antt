-- ===== src/Database/AnalyticsQuery/Tests.antt =====
-- The aggregate of one month.
use ai_statement_analyzer.Base.{◌≡◌, refl, [], ◌∷◌, filter}
use ai_statement_analyzer.Base.Int.{◌+ℤ◌}
use ai_statement_analyzer.Database.Tests.{finished, coffee}
use ai_statement_analyzer.Database.AnalyticsQuery.Sums.{
  IsAggregate, find_monthly_aggregate-IsAggregate,
}
use ai_statement_analyzer.Database.AnalyticsQuery.{
  find_monthly_aggregate, aggregate_of, is_counted, sum_amounts, groups, add_to_groups,
  map_analytics_integer, map_analytics_buckets,
}
use ai_statement_analyzer.Analytics.{AnalyticsDateRange, MonthlyAnalyticsAggregate}
use ai_statement_analyzer.Database.Types.{Database}
use ai_statement_analyzer.Base.Int.{pos}
use ai_statement_analyzer.Failure.{ok}

abbrev stored : Database
stored = record finished {
  transactions =
      record { input = coffee; id = 1; statement_id = "s1"; created_at = 5 }
      ∷ record {
        input = record coffee { line_number = 2; amount = pos 20 };
        id = 2;
        statement_id = "s1";
        created_at = 5;
      }
      ∷ record {
        input = record coffee { line_number = 3; transaction_date = "2026-02-01" };
        id = 3;
        statement_id = "s1";
        created_at = 5;
      }
      ∷ [];
}

abbrev january : AnalyticsDateRange
january = record { start = "2026-01-01"; end = "2026-02-01" }

abbrev of_january : MonthlyAnalyticsAggregate
of_january = record {
  total_amount = pos 500;
  transaction_count = 2;
  categories = record { name = "食費"; amount = pos 500; count = 2 } ∷ [];
  merchants = record { name = "Cafe"; amount = pos 500; count = 2 } ∷ [];
}

run : (find_monthly_aggregate january stored).0 ≡ ok of_january
unfolding find_monthly_aggregate aggregate_of sum_amounts groups add_to_groups map_analytics_integer
    map_analytics_buckets ◌+ℤ◌
run = refl

find_monthly_aggregate-IsAggregate_example :
    IsAggregate (filter (is_counted january stored.statements) stored.transactions) of_january
find_monthly_aggregate-IsAggregate_example =
    find_monthly_aggregate-IsAggregate january stored of_january run
